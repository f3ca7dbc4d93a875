-- ===== src/Connection/Crash.antt =====
-- The end of a verification, for which the connection has not waited. By then the client may have
-- said goodbye, been timed out, or been accepted by another request; `authOk` and `authFail` then
-- throw inside a promise that nobody awaits or catches.
use termlink.Prelude.{
  ◌||◌, if◌then◌else◌, Bool-cases, inl, inr, ℕ, ◌≡◌, ◌≢◌, ap, ◌∙◌, String, Bool, true, false, List,
  [], ◌∷◌, Option, some, arith, get_elem?,
}
use termlink.Prelude.Result.{ok}
use termlink.Message.{AuthRequest, ProtocolState, authenticating, ready, closing, goodbye_in}
use termlink.Message
use termlink.Protocol
use termlink.Protocol.{wrong_state, same}
use termlink.Connection.{
  Config, Connection, Out, unhandled_rejection, authenticated_as, emit, dispatch, send_safe, fail,
  send_all, on_protocol, send_auth_fail,
}
use termlink.Connection.Receive.{handle, dispatch_all}
use termlink.Connection.Events.{
  create_session, accept, refuse, admit, text_of_id, remove_at, finish, resolve,
  start_terminal_backend,
}

abbrev pub rejections : List Out → List Out
rejections [] = []
rejections (unhandled_rejection e ∷ out) = unhandled_rejection e ∷ rejections out
rejections (_ ∷ out) = rejections out

rejections-start_terminal_backend :
    (cfg : Config) (started : Bool) (c : Connection)
    → rejections (start_terminal_backend cfg started c).out ≡ rejections c.out
unfolding start_terminal_backend fail
rejections-start_terminal_backend cfg started c = ground arith

rejections-admit :
    (cfg : Config) (started : Bool) (id : String) (c : Connection)
    → (c.protocol ≡ authenticating → rejections (admit cfg started id c).out ≡ rejections c.out)
      × (c.protocol ≢ authenticating
          → (admit cfg started id c).out ≡ unhandled_rejection (wrong_state c.protocol) ∷ c.out)
unfolding admit on_protocol send_all send_safe Protocol.auth_ok
rejections-admit cfg started id c =
    let sent = send_safe (Message.auth_ok id) (record c { protocol = ready }) in
    (
      λ h.
          ground (
            arith,
            rejections-start_terminal_backend cfg started (emit (authenticated_as id) sent),
          ),
      λ h. ground arith,
    )

rejections-accept :
    (cfg : Config) (fresh : String) (now : ℕ) (started : Bool) (c : Connection)
    → (c.protocol ≡ authenticating
        → rejections (accept cfg fresh now started c).out ≡ rejections c.out)
      × (c.protocol ≢ authenticating
          → (accept cfg fresh now started c).out
            ≡ unhandled_rejection (wrong_state c.protocol) ∷ c.out)
unfolding accept create_session
rejections-accept cfg fresh now started c =
    let c' = create_session fresh now (record c { authenticated = true; auth_timer = false }) in
    rejections-admit cfg started (text_of_id c'.session_id) c'

rejections-refuse :
    (c : Connection)
    → (c.protocol ≡ authenticating → rejections (refuse c).out ≡ rejections c.out)
      × (c.protocol ≢ authenticating
          → (refuse c).out ≡ unhandled_rejection (wrong_state c.protocol) ∷ c.out)
unfolding refuse send_auth_fail on_protocol send_all send_safe Protocol.auth_fail
rejections-refuse c = (λ h. ground arith, λ h. ground arith)

finish_cases :
    (cfg : Config) (valid : Bool) (fresh : String) (now : ℕ) (started : Bool) (c : Connection)
    → (c.closed ≡ true → finish cfg valid fresh now started c ≡ c)
      × (c.closed ≡ false
          → c.protocol ≡ authenticating
          → rejections (finish cfg valid fresh now started c).out ≡ rejections c.out)
      × (c.closed ≡ false
          → c.protocol ≢ authenticating
          → (finish cfg valid fresh now started c).out
            ≡ unhandled_rejection (wrong_state c.protocol) ∷ c.out)
unfolding finish
finish_cases cfg true fresh now started c =
    let (quiet, loud) = rejections-accept cfg fresh now started c in
    (λ h. rw h, λ h k. simp h (quiet k), λ h k. simp h (loud k))
finish_cases cfg false fresh now started c =
    let (quiet, loud) = rejections-refuse c in
    (λ h. rw h, λ h k. simp h (quiet k), λ h k. simp h (loud k))

-- What a verification leaves behind, whether the credentials were right or wrong: nothing new on a
-- closed connection, or where the client still waits for the answer; and in every other state an
-- unhandled rejection, upon which Node ends the whole server by default.
pub rejections-finish :
    (cfg : Config) (valid : Bool) (fresh : String) (now : ℕ) (started : Bool) (c : Connection)
    → rejections (finish cfg valid fresh now started c).out ≡ (
        if c.closed || same authenticating c.protocol
        then rejections c.out
        else unhandled_rejection (wrong_state c.protocol) ∷ rejections c.out)
rejections-finish cfg valid fresh now started c =
    let (shut, quiet, loud) = finish_cases cfg valid fresh now started c in
    elim (Bool-cases c.closed) [
      | inl ended ↦ ground (arith, shut ended)
      | inr alive ↦ elim (Bool-cases (same authenticating c.protocol)) [
        | inl waits ↦ ground (arith, quiet alive)
        | inr moved ↦ ground (arith, loud alive)
      ]
    ]

goodbye_lem :
    (cfg : Config) (now : ℕ) (reason : Option String) (c c' : Connection)
    → handle cfg now (goodbye_in reason) c ≡ ok c'
    → (c'.protocol ≡ closing) × (c'.closed ≡ c.closed) × (c'.pending ≡ c.pending)
unfolding handle dispatch_all dispatch send_safe Protocol.handle
goodbye_lem cfg now reason c c' h = ground arith

-- A client whose credentials are being checked on an open connection, and whose goodbye is then
-- taken, brings about an unhandled rejection when the check ends, whatever its result.
goodbye_rejects :
    (cfg : Config) (check : AuthRequest → Bool) (place : ℕ) (r : AuthRequest)
    (reason : Option String) (fresh : String) (now later : ℕ) (started : Bool) (c c' : Connection)
    → c.closed ≡ false
    → get_elem? c.pending place ≡ some r
    → handle cfg now (goodbye_in reason) c ≡ ok c'
    → (resolve cfg check place fresh later started c').out
      ≡ unhandled_rejection (wrong_state closing) ∷ c'.out
unfolding resolve
goodbye_rejects cfg check place r reason fresh now later started c c' open_ held h =
    let (gone, still, under_way) = goodbye_lem cfg now reason c c' h in
    let c'' = record c' { pending = remove_at c'.pending place } in
    let (_, _, loud) = finish_cases cfg (check r) fresh later started c'' in
    let held' : get_elem? c'.pending place ≡ some r = rw under_way held in
    let thrown = loud (still ∙ open_) (λ e. cc) in
    rw (held', resolve) (thrown ∙ ap (λ s. unhandled_rejection (wrong_state s) ∷ c'.out) gone)
