-- ===== src/Connection/Events.antt =====
-- The events of a connection's life: bytes from its socket, the end of a verification, output and
-- exit of its terminal, its timers, and the close of its socket.
use termlink.Prelude.{
  ℕ, zero, suc, String, Bool, true, false, ◌||◌, List, [], ◌∷◌, ◌++◌, Option, none, some, ltb,
  if◌then◌else◌, get_elem?,
}
use termlink.Prelude.Result.{Result, ok, err}
use termlink.Json.{Json}
use termlink.Message.{AuthRequest, goodbye_out}
use termlink.Protocol
use termlink.Protocol.{Callback, Moved, WrongState}
use termlink.Sessions
use termlink.Connection.{
  Config, Connection, pty_backend, ssh_backend, end_socket, authenticated_as, starts_backend,
  disposes_backend, reports_close, unhandled_rejection, emit, send_safe, peer_closed, fail,
  terminate, shutdown, on_protocol, send_auth_fail,
}
use termlink.Connection.Receive.{on_data}

-- `startTerminalBackend`; `started` is what `pty.start` returned.
unfoldable pub start_terminal_backend : Config → Bool → Connection → Connection
start_terminal_backend cfg started c = elim cfg.backend [
  | pty_backend ↦
      if started then emit starts_backend c else fail "Terminal unavailable" (emit starts_backend c)
  | ssh_backend ↦ emit starts_backend c
  | _ ↦ c
]

-- `sessions.create(this.id)`, with the id that it draws and the time.
unfoldable pub create_session : String → ℕ → Connection → Connection
create_session fresh now c =
    let (registry, session) = Sessions.create fresh c.id now c.sessions in
    record c { sessions = registry; session_id = elim session [ none ↦ none | some s ↦ some s.id ] }

abbrev pub text_of_id : Option String → String
text_of_id none = ""
text_of_id (some id) = id

-- `authOk` and what follows it. A `FrameError` here is thrown inside an `async` function whose
-- promise nobody looks at.
unfoldable pub admit : Config → Bool → String → Connection → Connection
admit cfg started id c = elim (on_protocol (Protocol.auth_ok id) c) [
  | err e ↦ emit (unhandled_rejection e) c
  | ok done ↦ start_terminal_backend cfg started (emit (authenticated_as id) done)
]

unfoldable pub accept : Config → String → ℕ → Bool → Connection → Connection
accept cfg fresh now started c =
    let c' = create_session fresh now (record c { authenticated = true; auth_timer = false }) in
    admit cfg started (text_of_id c'.session_id) c'

unfoldable pub refuse : Connection → Connection
refuse c = elim (send_auth_fail "Invalid credentials" c) [
  | err e ↦ emit (unhandled_rejection e) c
  | ok done ↦ done
]

-- What stands behind the `await` of a verification that found `valid`.
unfoldable pub finish : Config → Bool → String → ℕ → Bool → Connection → Connection
finish cfg valid fresh now started c =
    if c.closed then c else if valid then accept cfg fresh now started c else refuse c

abbrev pub remove_at : List AuthRequest → ℕ → List AuthRequest
remove_at [] i = []
remove_at (r ∷ rs) zero = rs
remove_at (r ∷ rs) (suc i) = r ∷ remove_at rs i

-- The verification at a place among those under way ends. `check` is the credential store's
-- answer, from `verifyToken` or `verifyPassword`.
unfoldable pub resolve :
    Config → (AuthRequest → Bool) → ℕ → String → ℕ → Bool → Connection → Connection
resolve cfg check i fresh now started c = elim (get_elem? c.pending i) [
  | none ↦ c
  | some r ↦ finish cfg (check r) fresh now started (record c { pending = remove_at c.pending i })
]

abbrev pub auth_methods : Config → List String
auth_methods cfg =
    (if cfg.has_tokens then "token" ∷ [] else [])
    ++ (if cfg.has_passwords then "password" ∷ [] else [])

-- `hello` throws if the connection has been started before.
unfoldable pub start : Config → Connection → Result WrongState Connection
start cfg c = elim (on_protocol (Protocol.hello (auth_methods cfg)) c) [
  | err e ↦ err e
  | ok c' ↦ ok (record c' { auth_timer = ltb 0 cfg.auth_timeout_ms })
]

-- The authentication window has passed; the timer fires only if it is set.
unfoldable pub on_auth_timeout : Connection → Connection
on_auth_timeout c =
    if c.auth_timer
    then if c.authenticated || c.closed
      then record c { auth_timer = false }
      else emit end_socket (
          send_safe (goodbye_out (some "Authentication timed out"))
            (peer_closed (record c { auth_timer = false })))
    else c

unfoldable pub on_idle_timeout : Connection → Connection
on_idle_timeout c = emit end_socket (peer_closed c)

-- The peer sent FIN.
unfoldable pub on_end : Connection → Connection
on_end c = emit end_socket c

unfoldable pub on_output : String → Connection → Connection
on_output payload c = elim (on_protocol (Protocol.terminal_output payload) c) [
  | err e ↦ c
  | ok c' ↦ c'
]

unfoldable pub on_close : Connection → Connection
on_close c = if c.closed then c else record c {
  closed = true;
  auth_timer = false;
  sessions = Sessions.remove_by_connection_id c.id c.sessions;
  out = reports_close c.authenticated ∷ disposes_backend ∷ c.out;
}

pub data Event : Type 0 where
  data_arrives : (chunk : List ℕ) (now : ℕ) → Event
  verification_ends : (place : ℕ) (fresh : String) (now : ℕ) (started : Bool) → Event
  terminal_outputs : (payload : String) → Event
  terminal_exits : (detail : String) → Event
  auth_times_out idle_times_out peer_ends socket_closes server_shuts_down : Event
  terminated : (reason : Option String) → Event

module _ (parse : List ℕ → Option Json) (cfg : Config) (check : AuthRequest → Bool) where
  unfoldable pub step : Event → Connection → Connection
  step (data_arrives chunk now) c = on_data parse cfg chunk now c
  step (verification_ends place fresh now started) c = resolve cfg check place fresh now started c
  step (terminal_outputs payload) c = on_output payload c
  step (terminal_exits detail) c = fail detail c
  step auth_times_out c = on_auth_timeout c
  step idle_times_out c = on_idle_timeout c
  step peer_ends c = on_end c
  step socket_closes c = on_close c
  step server_shuts_down c = shutdown c
  step (terminated reason) c = terminate reason c

  unfoldable pub run : List Event → Connection → Connection
  run [] c = c
  run (e ∷ events) c = run events (step e c)
