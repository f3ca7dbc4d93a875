-- ===== src/Transport/Repeat.antt =====
-- A message that the client sends twice.
use termlink.Prelude.{
  not, ◌&&◌, if◌then◌else◌, ℕ, ◌≡◌, refl, sym, ◌∙◌, ap, Bool, true, false, List, [], ◌∷◌, ◌++◌,
  append_assoc, append-nil, arith,
}
use termlink.Message.{ClientMessage}
use termlink.Transport.{
  ClientConfig, OwnerCall, sends, closes, destroys, emits, drained, TcpClient, emit, is_ready,
  write, enqueue, request, react, tell, close, destroy, destroy_socket, flush_from, flush_queue,
}
use termlink.Transport.Events.{flush_times, on_drain}
use termlink.Transport.Moves.{written}

enqueue_full :
    (m : ClientMessage) (c : TcpClient)
    → c.destroyed ≡ false
    → is_ready c ≡ true
    → c.has_socket ≡ true
    → c.send_queue ≡ []
    → c.listeners ≡ 0
    → (enqueue false m c).1 ≡ write m (record c { send_queue = m ∷ []; listeners = 1 })
unfolding enqueue
enqueue_full m c alive up there empty quiet = ground arith

-- What one call of the owner writes.
request-written :
    (writable : Bool) (m : ClientMessage) (c : TcpClient)
    → (more : List ClientMessage) × (written (request writable m c).1.out ≡ written c.out ++ more)
unfolding request enqueue
request-written writable m c =
    let goes = not c.destroyed && (is_ready c && c.has_socket) in
    ((if goes then m ∷ [] else []), ground (arith, append-nil (written c.out)))

-- An owner that calls back only adds to what is written.
react-written :
    (calls : List OwnerCall) (c : TcpClient)
    → (more : List ClientMessage) × (written (react calls c).out ≡ written c.out ++ more)
unfolding react close destroy destroy_socket
react-written [] c = ([], sym (append-nil (written c.out)))
react-written (sends m writable ∷ calls) c =
    let (first, e) = request-written writable m c in
    let (rest, f) = react-written calls (request writable m c).1 in
    (first ++ rest, f ∙ ap (λ ms. ms ++ rest) e ∙ append_assoc (written c.out) first rest)
react-written (closes ∷ calls) c =
    let (more, e) = react-written calls (close c) in (more, ground (arith, e))
react-written (destroys ∷ calls) c =
    let (more, e) = react-written calls (destroy c) in (more, ground (arith, e))

flush_one :
    (cfg : ClientConfig) (writable : ℕ → Bool) (m : ClientMessage) (c : TcpClient)
    → c.has_socket ≡ true
    → is_ready c ≡ true
    → c.send_queue ≡ m ∷ []
    → writable 0 ≡ true
    → flush_queue cfg writable c ≡ tell cfg drained (record (write m c) { send_queue = [] })
unfolding flush_queue flush_from
flush_one cfg writable m c there up one room = ground arith

-- A message that a ready client sends while its queue is empty and the socket's buffer is full is
-- written at once and once more when the buffer has drained, although Node has taken it the first
-- time: the peer is sent it twice, before anything that the owner then sends inside `drained`.
pub written-enqueue_full :
    (cfg : ClientConfig) (m : ClientMessage) (writable : ℕ → ℕ → Bool) (c : TcpClient)
    → c.destroyed ≡ false
    → is_ready c ≡ true
    → c.has_socket ≡ true
    → c.send_queue ≡ []
    → c.listeners ≡ 0
    → writable 0 0 ≡ true
    → (more : List ClientMessage) × (written (on_drain cfg writable (enqueue false m c).1).out
        ≡ ((written c.out ++ m ∷ []) ++ m ∷ []) ++ more)
unfolding on_drain flush_times tell
written-enqueue_full cfg m writable c alive up there empty quiet room =
    let refused = write m (record c { send_queue = m ∷ []; listeners = 1 }) in
    let first = enqueue_full m c alive up there empty quiet in
    let idle = record refused { listeners = 0 } in
    let again = flush_one cfg (writable 0) m idle there up refl room in
    let told = emit (emits drained) (record (write m idle) { send_queue = [] }) in
    let (more, e) = react-written (cfg.on_event told drained) told in (more, rw (first, again) e)
