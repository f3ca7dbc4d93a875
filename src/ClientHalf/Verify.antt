-- ===== src/ClientHalf/Verify.antt =====
-- How the end of a verification, a timer and the close of the socket move the half.
use termlink.Prelude.{
  ℕ, zero, suc, ◌≡◌, refl, sym, ◌∙◌, String, Bool, true, false, ◌||◌, List, [], ◌∷◌, none_of,
  get_elem?-none_of, Option, none, some, arith, inl, inr, get_elem?, Option-cases, if◌then◌else◌,
}
use termlink.Message.{AuthRequest, token_request, password_request}
use termlink.Protocol
use termlink.ClientHalf.{Options, ClientHalf, terminates_bridge, emit, send, teardown, Reaction}
use termlink.ClientHalf.Receive.{send_all, on_protocol, send_auth_fail}
use termlink.ClientHalf.Events.{
  verified, create_session, text_of_id, admit, accept, refuse, finish, remove_at, resolve,
  on_auth_timeout, on_idle_timeout, on_close,
}
use termlink.ClientHalf.Moves.{Answers, terminate-Answers, react-Answers, Answers-trans}

-- The answer of the two stores together.
abbrev pub is_right : (AuthRequest → Bool) → (String → Option String) → AuthRequest → Bool
is_right check web_user (token_request token) =
    check (token_request token) || elim (web_user token) [ none ↦ false | some username ↦ true ]
is_right check web_user (password_request username password) =
    check (password_request username password)

verified-eq-is_right :
    (check : AuthRequest → Bool) (web_user : String → Option String) (r : AuthRequest)
    (h : ClientHalf)
    → (verified check web_user r h).0 ≡ is_right check web_user r
unfolding verified
verified-eq-is_right check web_user (token_request token) h = ground arith
verified-eq-is_right check web_user (password_request username password) h = ground arith

none_of-remove_at :
    (right : AuthRequest → Bool) (rs : List AuthRequest) (place : ℕ)
    → none_of right rs ≡ true
    → none_of right (remove_at rs place) ≡ true
none_of-remove_at right [] place h = h
none_of-remove_at right (r ∷ rs) zero h = ground arith
none_of-remove_at right (r ∷ rs) (suc place) h = ground (arith, none_of-remove_at right rs place)

module _ (opts : Options) (right : AuthRequest → Bool) (t : Bool) where
  admit-Answers : (id : String) (h : ClientHalf) → t ≡ true → Answers opts right t h (admit id h)
  unfolding admit on_protocol send_all send Protocol.auth_ok
  admit-Answers id h e = ground arith

  refuse-Answers : (h : ClientHalf) → Answers opts right t h (refuse h)
  unfolding refuse send_auth_fail on_protocol send_all send Protocol.auth_fail
  refuse-Answers h = ground arith

  finish-Answers :
      (fresh : String) (now : ℕ) (valid : Bool) (h : ClientHalf)
      → (valid ≡ true → t ≡ true)
      → Answers opts right t h (finish fresh now (valid, h))
  unfolding finish accept create_session
  finish-Answers fresh now true h e =
      let h' = record (create_session fresh now (record h { authenticated = true })) {
        auth_timer = false;
      } in
      let a = admit-Answers (text_of_id h'.session_id) h' (e refl) in
      ground (arith, a.moves, a.inbound, a.outbound, e refl)
  finish-Answers fresh now false h e = ground (arith, refuse-Answers h)

  verified-Answers :
      (check : AuthRequest → Bool) (web_user : String → Option String) (r : AuthRequest)
      (h : ClientHalf)
      → Answers opts right t h (verified check web_user r h).1
  unfolding verified
  verified-Answers check web_user (token_request token) h = ground arith
  verified-Answers check web_user (password_request username password) h = ground arith

  pub on_auth_timeout-Answers : (h : ClientHalf) → Answers opts right t h (on_auth_timeout h)
  unfolding on_auth_timeout
  on_auth_timeout-Answers h =
      ground (arith, terminate-Answers opts right t (some "Authentication timed out") h)

  pub on_idle_timeout-Answers : (h : ClientHalf) → Answers opts right t h (on_idle_timeout h)
  unfolding on_idle_timeout
  on_idle_timeout-Answers h = ground (arith, terminate-Answers opts right t (some "Idle timeout") h)

  pub on_close-Answers :
      (answer : Reaction) (h : ClientHalf) → Answers opts right t h (on_close answer h)
  unfolding on_close teardown
  on_close-Answers answer h =
      let reason = if h.authenticated then some "WebSocket client disconnected" else none in
      let told =
        emit (terminates_bridge reason) (record h { auth_timer = false; idle_timer = false }) in
      let a = react-Answers opts right t answer told in
      ground (arith, a.moves, a.inbound, a.outbound)

module _ (opts : Options) (check : AuthRequest → Bool) (web_user : String → Option String) where
  -- The end of a verification, answered truly.
  finish-verified :
      (r : AuthRequest) (fresh : String) (now : ℕ) (h : ClientHalf)
      → Answers opts
          (is_right check web_user)
          (is_right check web_user r)
          h
          (finish fresh now (verified check web_user r h))
  finish-verified r fresh now h =
      let right = is_right check web_user in
      let (valid, h') = verified check web_user r h in
      Answers-trans opts right (right r) h h' _
        (verified-Answers opts right (right r) check web_user r h)
        (finish-Answers opts right (right r) fresh now valid h'
          (λ e. sym (verified-eq-is_right check web_user r h) ∙ e))

  -- The stores' answer on the request at the place decides.
  pub resolve-Answers :
      (place : ℕ) (fresh : String) (now : ℕ) (h : ClientHalf)
      → Answers opts (is_right check web_user) false h (resolve check web_user place fresh now h)
  unfolding resolve
  resolve-Answers place fresh now h = elim (Option-cases (get_elem? h.pending place)) [
    | inl absent ↦ rw (absent, resolve) ground arith
    | inr (r, held) ↦
        let right = is_right check web_user in
        let h' = record h { pending = remove_at h.pending place } in
        let a = finish-verified r fresh now h' in
        rw (held, resolve) ground
          (
            arith,
            a.moves,
            a.inbound,
            a.outbound,
            get_elem?-none_of right h.pending place r held,
            none_of-remove_at right h.pending place,
          )
  ]
