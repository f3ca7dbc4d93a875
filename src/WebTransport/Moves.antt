-- ===== src/WebTransport/Moves.antt =====
-- What is counted of a transport's life, what holds between its events, and what its answers to
-- messages do to it.
use termlink.Prelude.{
  ℕ, suc, ◌+◌, ◌≤◌, ◌≡◌, refl, String, Bool, true, false, List, [], ◌∷◌, Option, none, some, arith,
  ◌&&◌, ◌===◌, not, length, ◌==◌, if◌then◌else◌,
}
use termlink.Json.{Json, null, string, object, Fields, field_of}
use termlink.Message.{auth_request}
use termlink.WebTransport.{
  disconnected, connecting, ready, same_state, Payload, json, WebOptions, Failure, WebEvent,
  is_ready, got_data, got_binary, got_output, got_pong, WebOut, opens, sends, emits, WebTransport,
  is_kept, teardown, give_up, size_of_payload,
}
use termlink.WebTransport.Events.{
  shown, decode_base64, send_auth_request, on_hello, on_auth_ok, on_auth_fail, on_payload,
  on_goodbye, handle_typed, handle_object, handle_text, one_if,
}

abbrev pub opened : List WebOut → ℕ
opened [] = 0
opened (opens n ∷ out) = suc (opened out)
opened (_ ∷ out) = opened out

abbrev pub is_login : Payload → Bool
is_login (json (auth_request r)) = true
is_login _ = false

-- How many logins are among the payloads.
abbrev pub logins : List Payload → ℕ
logins [] = 0
logins (p ∷ payloads) = one_if (is_login p) + logins payloads

-- What was sent, the latest first.
abbrev pub sent : List WebOut → List Payload
sent [] = []
sent (sends n p ∷ out) = p ∷ sent out
sent (_ ∷ out) = sent out

-- How often the transport was ready.
abbrev pub readies : List WebOut → ℕ
readies [] = 0
readies (emits (is_ready id) ∷ out) = suc (readies out)
readies (_ ∷ out) = readies out

abbrev pub is_served : WebEvent → Bool
is_served (got_data payload) = true
is_served (got_binary payload) = true
is_served (got_output payload) = true
is_served got_pong = true
is_served _ = false

-- How much passed that needs a login: events that are handed on, and sends that are no login.
abbrev pub services : List WebOut → ℕ
services [] = 0
services (emits e ∷ out) = one_if (is_served e) + services out
services (sends n p ∷ out) = one_if (if is_login p then false else true) + services out
services (_ ∷ out) = services out

-- The attempts that the times of being ready allow for.
abbrev pub allowed : ℕ → List WebOut → ℕ
allowed max [] = 0
allowed max (emits (is_ready id) ∷ out) = max + allowed max out
allowed max (_ ∷ out) = allowed max out

abbrev pub pending : WebTransport → ℕ
pending c = one_if c.reconnect_timer + c.strays

-- The transport has at most one reconnect under way, and none beside a socket.
abbrev pub is_single : WebTransport → Bool
is_single c = c.strays === 0 && not (c.reconnect_timer && is_kept c.ws)

-- The transport is closed for good, and no reconnect is under way.
abbrev pub is_over : WebTransport → Bool
is_over c =
    c.closed_by_us
    && (not (is_kept c.ws)
        && (same_state c.ready_state disconnected && (not c.reconnect_timer && c.strays === 0)))

module _ (opts : WebOptions) where
  abbrev pub total : List Payload → ℕ
  total [] = 0
  total (p ∷ payloads) = size_of_payload opts p + total payloads

  -- What holds between two events.
  pub record IsSound (c : WebTransport) : Type 0 where
    pub attempts : c.reconnect_attempts ≤ opts.max_reconnect_attempts
    pub greeted : logins (sent c.out) + one_if (same_state c.ready_state connecting) ≤ opened c.out
    pub plain : logins c.outbound_queue ≡ 0
    pub summed : c.outbound_bytes ≡ total c.outbound_queue
    pub few : length c.outbound_queue ≤ opts.max_outbound_frames
    pub small : c.outbound_bytes ≤ opts.max_outbound_bytes
    pub anonymous : readies c.out ≡ 0 → services c.out ≡ 0
    pub not_ready : readies c.out ≡ 0 → same_state c.ready_state ready ≡ false

  -- An event that calls `connect` as often as `asked`.
  pub record Lives (asked : ℕ) (c c' : WebTransport) : Type 0 where
    pub sound : IsSound c'
    pub balance :
        opened c'.out
          + pending c'
          + c.reconnect_attempts
          + allowed opts.max_reconnect_attempts c.out
        ≤ opened c.out
          + pending c
          + c'.reconnect_attempts
          + allowed opts.max_reconnect_attempts c'.out
          + asked
    pub single : asked ≡ 0 → is_single c ≡ true → is_single c' ≡ true
    pub over : asked ≡ 0 → is_over c ≡ true → is_over c' ≡ true
    pub silent :
        asked ≡ 0 → is_over c ≡ true → (opened c'.out ≡ opened c.out) × (sent c'.out ≡ sent c.out)

  pub give_up-Lives : (f : Failure) (c : WebTransport) → IsSound c → Lives 0 c (give_up f c)
  unfolding give_up teardown
  give_up-Lives f c s = ground (arith, s)

  on_hello-Lives :
      (fails : Bool) (methods : List String) (c : WebTransport)
      → IsSound c
      → Lives 0 c (on_hello opts fails methods c)
  unfolding on_hello send_auth_request give_up teardown
  on_hello-Lives fails methods c s = ground (arith, s)

  on_auth_ok-Lives : (id : String) (c : WebTransport) → IsSound c → Lives 0 c (on_auth_ok id c)
  unfolding on_auth_ok give_up teardown
  on_auth_ok-Lives id c s = ground (arith, s)

  on_auth_fail-Lives :
      (reason : String) (c : WebTransport) → IsSound c → Lives 0 c (on_auth_fail reason c)
  unfolding on_auth_fail give_up teardown
  on_auth_fail-Lives reason c s = ground (arith, s)

  on_payload-Lives :
      (type : String) (event : WebEvent) (c : WebTransport)
      → is_served event ≡ true
      → IsSound c
      → Lives 0 c (on_payload type event c)
  unfolding on_payload give_up teardown
  on_payload-Lives type event c h s = ground (arith, s, h)

  on_goodbye-Lives :
      (reason : Option Json) (c : WebTransport) → IsSound c → Lives 0 c (on_goodbye reason c)
  unfolding on_goodbye
  on_goodbye-Lives reason c s = ground (arith, s)

  if-Lives :
      (b : Bool) (c x y : WebTransport) → Lives 0 c x → Lives 0 c y → Lives 0 c (if b then x else y)
  if-Lives true c x y l r = l
  if-Lives false c x y l r = r

  handle_typed-Lives :
      (fails : Bool) (rec : Fields) (type : String) (c : WebTransport)
      → IsSound c
      → Lives 0 c (handle_typed opts fails rec type c)
  unfolding handle_typed
  handle_typed-Lives fails rec type c s =
      let payload = shown opts (field_of rec "data") in
      let bytes = decode_base64 opts payload in
      if-Lives (type == "hello") c _ _ (on_hello-Lives fails _ c s) (
        if-Lives (type == "auth_ok") c _ _ (on_auth_ok-Lives _ c s) (
          if-Lives (type == "auth_fail") c _ _ (on_auth_fail-Lives _ c s) (
            if-Lives (type == "data") c _ _ (on_payload-Lives "data" (got_data payload) c refl s) (
              if-Lives (type == "binary") c _ _
                (on_payload-Lives "binary" (got_binary bytes) c refl s)
                (if-Lives (type == "terminal_output") c _ _
                  (on_payload-Lives "terminal_output" (got_output bytes) c refl s)
                  (if-Lives (type == "pong") c _ _ (on_payload-Lives "pong" got_pong c refl s) (
                    if-Lives (type == "goodbye") c _ _ (on_goodbye-Lives _ c s)
                      (give_up-Lives _ c s))))))))

  handle_object-Lives :
      (fails : Bool) (rec : Fields) (type : Option Json) (c : WebTransport)
      → IsSound c
      → Lives 0 c (handle_object opts fails rec type c)
  unfolding handle_object
  handle_object-Lives fails rec (some (string type)) c s = handle_typed-Lives fails rec type c s
  handle_object-Lives fails rec other c s = give_up-Lives _ c s

  pub handle_text-Lives :
      (fails : Bool) (text : Option Json) (c : WebTransport)
      → IsSound c
      → Lives 0 c (handle_text opts fails text c)
  unfolding handle_text
  handle_text-Lives fails none c s = ground (arith, s)
  handle_text-Lives fails (some null) c s = ground (arith, s)
  handle_text-Lives fails (some (object rec)) c s = handle_object-Lives fails rec _ c s
  handle_text-Lives fails (some _) c s = give_up-Lives _ c s
