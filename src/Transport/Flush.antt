-- ===== src/Transport/Flush.antt =====
-- What the owner asks for and what is written: the owner's calls inside an event, and the flush.
use termlink.Prelude.{
  ◌&&◌, ℕ, suc, ◌≡◌, ◌≢◌, String, Bool, true, false, List, [], ◌∷◌, ◌++◌, append_assoc, append-nil,
  arith, inl, inr, Bool-cases, length, ◌===◌,
}
use termlink.Message.{ClientMessage}
use termlink.Transport.{
  ClientConfig, OwnerCall, sends, closes, destroys, ClientEvent, emits, drained, session_ready,
  TcpClient, emit, is_ready, react, tell, write, destroy_socket, request, enqueue, flush_from,
  flush_queue, close, destroy,
}
use termlink.Transport.Moves.{written, requested}

-- Nothing of the owner is lost, doubled or reordered, and nothing waits where it could go out.
pub record Holds (c : TcpClient) : Type 0 where
  pub in_order : c.destroyed ≡ false → written c.out ++ c.send_queue ≡ requested c.out
  pub flushed : is_ready c ≡ true → c.has_socket ≡ true → c.send_queue ≡ []

-- No `write` of these calls finds the socket's buffer full.
abbrev pub all_fit : List OwnerCall → Bool
all_fit [] = true
all_fit (sends m writable ∷ calls) = writable && all_fit calls
all_fit (_ ∷ calls) = all_fit calls

abbrev pub sends_nothing : List OwnerCall → Bool
sends_nothing [] = true
sends_nothing (sends m writable ∷ calls) = false
sends_nothing (_ ∷ calls) = sends_nothing calls

pub request-Holds : (m : ClientMessage) (c : TcpClient) → Holds c → Holds (request true m c).1
unfolding request enqueue
request-Holds m c h = ground (
  arith,
  h,
  append_assoc (written c.out) c.send_queue (m ∷ []),
  append-nil (written c.out),
  append-nil (written c.out ++ m ∷ []),
)

react-Holds :
    (calls : List OwnerCall) (c : TcpClient)
    → all_fit calls ≡ true
    → Holds c
    → Holds (react calls c)
unfolding react close destroy destroy_socket
react-Holds [] c fit h = h
react-Holds (sends m true ∷ calls) c fit h =
    react-Holds calls (request true m c).1 fit (request-Holds m c h)
react-Holds (sends m false ∷ calls) c fit h = cc
react-Holds (closes ∷ calls) c fit h = react-Holds calls (close c) fit (ground (arith, h))
react-Holds (destroys ∷ calls) c fit h = react-Holds calls (destroy c) fit (ground (arith, h))

-- An owner that sends nothing may still close or destroy the client.
react-quiet :
    (calls : List OwnerCall) (c : TcpClient)
    → sends_nothing calls ≡ true
    → let c' = react calls c in
      (written c'.out ≡ written c.out)
      × (requested c'.out ≡ requested c.out)
      × (c'.send_queue ≡ c.send_queue)
      × (c.destroyed ≡ true → c'.destroyed ≡ true)
unfolding react close destroy destroy_socket
react-quiet [] c q = ground arith
react-quiet (sends m writable ∷ calls) c q = cc
react-quiet (closes ∷ calls) c q = ground (arith, react-quiet calls (close c))
react-quiet (destroys ∷ calls) c q = ground (arith, react-quiet calls (destroy c))

-- What the owner does inside `onEvent`: no `write` there finds the buffer full, and inside `ready`
-- it sends nothing while earlier messages of it still wait in the client.
pub record IsPatient (cfg : ClientConfig) : Type 0 where
  pub fits : (c : TcpClient) (e : ClientEvent) → all_fit (cfg.on_event c e) ≡ true
  pub waits :
      (c : TcpClient) (id : String)
      → c.send_queue ≢ []
      → sends_nothing (cfg.on_event c (session_ready id)) ≡ true

module _ (cfg : ClientConfig) (p : IsPatient cfg) where
  pub tell-Holds : (e : ClientEvent) (c : TcpClient) → Holds c → Holds (tell cfg e c)
  unfolding tell
  tell-Holds e c h =
      let told = emit (emits e) c in
      react-Holds (cfg.on_event told e) told (p.fits told e) (ground (arith, h))

  module _ (writable : ℕ → Bool) (room : (j : ℕ) → writable j ≡ true) where
    flush_from-Holds :
        (i : ℕ) (queue : List ClientMessage) (c : TcpClient)
        → (c.destroyed ≡ false → written c.out ++ queue ≡ requested c.out)
        → Holds (flush_from cfg writable i queue c)
    unfolding flush_from
    flush_from-Holds i [] c h =
        tell-Holds drained (record c { send_queue = [] }) (ground (arith, h))
    flush_from-Holds i (m ∷ queue) c h = ground (
      arith,
      room i,
      h,
      flush_from-Holds (suc i) queue (write m c),
      append_assoc (written c.out) (m ∷ []) queue,
    )

    -- The flush makes up for what waits.
    pub flush_queue-Holds :
        (c : TcpClient)
        → (c.destroyed ≡ false → written c.out ++ c.send_queue ≡ requested c.out)
        → Holds (flush_queue cfg writable c)
    unfolding flush_queue
    flush_queue-Holds c h = ground (arith, h, flush_from-Holds 0 c.send_queue c)

    pub ready-Holds :
        (id : String) (c : TcpClient)
        → (c.destroyed ≡ false → written c.out ++ c.send_queue ≡ requested c.out)
        → Holds (flush_queue cfg writable (tell cfg (session_ready id) c))
    unfolding tell
    ready-Holds id c h = elim (Bool-cases (length c.send_queue === 0)) [
      | inl empty ↦
          let t = tell-Holds (session_ready id) c (ground (arith, h)) in
          flush_queue-Holds (tell cfg (session_ready id) c) (ground (arith, t))
      | inr waiting ↦
          let told = emit (emits (session_ready id)) c in
          let q =
            react-quiet (cfg.on_event told (session_ready id)) told
              (p.waits told id (ground arith)) in
          flush_queue-Holds (tell cfg (session_ready id) c) (ground (arith, q, h))
    ]
