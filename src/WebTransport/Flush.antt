-- ===== src/WebTransport/Flush.antt =====
-- The buffer of what the page sends.
use termlink.Prelude.{
  ℕ, ◌+◌, ◌≤◌, ◌≡◌, refl, ap, ◌-◌, Bool, true, false, List, [], ◌∷◌, ◌++◌, arith, inl, inr,
  Option-cases, Bool-cases, ◌||◌, length, ltb,
}
use termlink.WebTransport.{
  ready, same_state, Payload, WebOptions, sends, WebTransport, teardown, give_up, size_of_payload,
  flush_from, enqueue_to, enqueue, Request, send_data, send_binary, send_terminal_input,
  send_terminal_resize, send_ping, payload_of, submit, note,
}
use termlink.WebTransport.Events.{one_if}
use termlink.WebTransport.Moves.{
  opened, is_login, logins, sent, readies, allowed, total, IsSound, Lives,
}

module _ (opts : WebOptions) where
  -- What a flush does with what waits.
  record Flushes (queue : List Payload) (c c' : WebTransport) : Type 0 where
    ws_kept : c'.ws ≡ c.ws
    state_kept : c'.ready_state ≡ c.ready_state
    attempts_kept : c'.reconnect_attempts ≡ c.reconnect_attempts
    timer_kept : c'.reconnect_timer ≡ c.reconnect_timer
    strays_kept : c'.strays ≡ c.strays
    closed_kept : c'.closed_by_us ≡ c.closed_by_us
    opened_kept : opened c'.out ≡ opened c.out
    readies_kept : readies c'.out ≡ readies c.out
    allowed_kept :
        allowed opts.max_reconnect_attempts c'.out ≡ allowed opts.max_reconnect_attempts c.out
    logins_kept :
        logins (sent c'.out) + logins c'.outbound_queue ≡ logins (sent c.out) + logins queue
    logins_grow : logins (sent c.out) ≤ logins (sent c'.out)
    fewer : length c'.outbound_queue ≤ length queue
    balanced :
        c.outbound_bytes ≡ total opts queue → c'.outbound_bytes ≡ total opts c'.outbound_queue
    smaller : c'.outbound_bytes ≤ c.outbound_bytes

  flush_from-Flushes :
      (fails : ℕ → Bool) (i n : ℕ) (queue : List Payload) (c : WebTransport)
      → Flushes queue c (flush_from opts fails i n queue c)
  unfolding flush_from
  flush_from-Flushes fails i n [] c = ground arith
  flush_from-Flushes fails i n (p ∷ queue) c =
      let sent' =
        note (sends n p)
          (record c { outbound_bytes = c.outbound_bytes - size_of_payload opts p }) in
      ground (arith, flush_from-Flushes fails (i + 1) n queue sent')

  logins-append : (a b : List Payload) → logins (a ++ b) ≡ logins a + logins b
  logins-append [] b = omega arith
  logins-append (p ∷ a) b = omega (arith, logins-append a b)

  total-append : (a b : List Payload) → total opts (a ++ b) ≡ total opts a + total opts b
  total-append [] b = omega arith
  total-append (p ∷ a) b = omega (arith, total-append a b)

  is_login-payload_of : (r : Request) → is_login (payload_of opts r) ≡ false
  is_login-payload_of (send_data payload) = refl
  is_login-payload_of (send_binary buffer) = refl
  is_login-payload_of (send_terminal_input bytes) = refl
  is_login-payload_of (send_terminal_resize cols rows) = refl
  is_login-payload_of send_ping = refl

  flushed-Lives :
      (queue : List Payload) (bytes : ℕ) (c c' : WebTransport)
      → Flushes queue (record c { outbound_queue = queue; outbound_bytes = bytes }) c'
      → logins queue ≡ 0
      → bytes ≡ total opts queue
      → (length queue ≤ opts.max_outbound_frames) × (bytes ≤ opts.max_outbound_bytes)
      → same_state c.ready_state ready ≡ true
      → IsSound opts c
      → Lives opts 0 c c'
  flushed-Lives queue bytes c c' flushed waits sum room been s = record {
    sound = record {
      attempts = ground (arith, flushed, s);
      greeted = ground (arith, flushed, s);
      plain = ground (arith, flushed, s);
      summed = flushed.balanced sum;
      few = ground (arith, flushed);
      small = ground (arith, flushed);
      anonymous = ground (arith, flushed, s, been);
      not_ready = ground (arith, flushed, s, been);
    };
    balance = ground (arith, flushed, s);
    single = ground (arith, flushed, been);
    over = ground (arith, flushed, been);
    silent = ground (arith, flushed, been);
  }

  enqueue_to-Lives :
      (fails : ℕ → Bool) (n : ℕ) (p : Payload) (c : WebTransport)
      → is_login p ≡ false
      → same_state c.ready_state ready ≡ true
      → IsSound opts c
      → Lives opts 0 c (enqueue_to opts fails n p c).1
  unfolding enqueue_to give_up teardown
  enqueue_to-Lives fails n p c other been s =
      let queue = c.outbound_queue ++ p ∷ [] in
      let bytes = c.outbound_bytes + size_of_payload opts p in
      let queued = record c { outbound_queue = queue; outbound_bytes = bytes } in
      let flushed = flush_from-Flushes fails 0 n queue queued in
      let no_login : one_if (is_login p) ≡ 0 = ap one_if other in
      let waits : logins queue ≡ 0 =
        omega (arith, logins-append c.outbound_queue (p ∷ []), no_login, s.plain) in
      let sum : bytes ≡ total opts queue =
        omega (arith, total-append c.outbound_queue (p ∷ []), s.summed) in
      elim (Bool-cases
        (ltb opts.max_outbound_frames (length queue) || ltb opts.max_outbound_bytes bytes)) [
          | inl full ↦ rw full (ground (arith, s))
          | inr fits ↦
              let room : (length queue ≤ opts.max_outbound_frames)
                  × (bytes ≤ opts.max_outbound_bytes) =
                ground (arith, fits) in
              rw fits (flushed-Lives queue bytes c _ flushed waits sum room been s)
        ]

  pub submit-Lives :
      (open_ : Bool) (fails : ℕ → Bool) (r : Request) (c : WebTransport)
      → IsSound opts c
      → Lives opts 0 c (submit opts open_ fails r c).1
  unfolding submit enqueue
  submit-Lives open_ fails r c s = elim (Option-cases c.ws) [
    | inl gone ↦ ground (arith, s)
    | inr (n, kept) ↦
        ground (arith, s, enqueue_to-Lives fails n (payload_of opts r) c (is_login-payload_of r))
  ]
