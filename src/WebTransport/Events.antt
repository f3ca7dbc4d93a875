-- ===== src/WebTransport/Events.antt =====
-- What the transport of the web page does with the messages of its socket, its reconnection, and
-- all events of its life.
use termlink.Prelude.{
  ℕ, ◌+◌, ◌-◌, String, Bool, true, false, not, ◌&&◌, ◌||◌, List, [], ◌∷◌, Option, none, some, ltb,
  leb, ◌==◌, ◌===◌, truthy, includes, if◌then◌else◌,
}
use termlink.Json.{Json, null, string, array, object, Items, nil, cons, Fields, field_of}
use termlink.Message.{auth_request, token_request, password_request}
use termlink.WebTransport.{
  disconnected, connecting, authenticating, ready, same_state, json, WebOptions, invalid_json,
  no_usable_credentials, websocket_error, unexpected, unknown_type, WebEvent, is_connecting,
  is_open, got_hello, is_ready, auth_failed, got_data, got_binary, got_output, got_pong,
  got_goodbye, is_closed, failed, reconnect_failed, WebTransport, emit, open_socket, connect,
  cancel_reconnect, give_up, submit, send_now, close, destroy, Request,
}

abbrev pub usable : Option String → Bool
usable none = false
usable (some s) = truthy s

abbrev pub text_or_empty : Option String → String
text_or_empty none = ""
text_or_empty (some s) = s

-- `String(value ?? "")`
abbrev pub shown : WebOptions → Option Json → String
shown opts none = ""
shown opts (some null) = ""
shown opts (some (string s)) = s
shown opts (some v) = opts.printed v

abbrev pub texts_of_items : WebOptions → Items → List String
texts_of_items opts nil = []
texts_of_items opts (cons (string s) rest) = s ∷ texts_of_items opts rest
texts_of_items opts (cons v rest) = opts.printed v ∷ texts_of_items opts rest

abbrev pub string_array : WebOptions → Option Json → List String
string_array opts (some (array items)) = texts_of_items opts items
string_array opts _ = []

abbrev pub decode_base64 : WebOptions → String → List ℕ
decode_base64 opts encoded = elim (opts.atob encoded) [ none ↦ [] | some bytes ↦ bytes ]

unfoldable pub send_auth_request : WebOptions → Bool → List String → WebTransport → WebTransport
send_auth_request opts fails methods c =
    if includes methods "token" && usable opts.token
    then send_now fails (json (auth_request (token_request (text_or_empty opts.token)))) c
    else if includes methods "password" && (usable opts.username && usable opts.password)
    then send_now fails
        (json (
          auth_request
            (password_request (text_or_empty opts.username) (text_or_empty opts.password))))
        c
    else give_up no_usable_credentials c

unfoldable pub on_hello : WebOptions → Bool → List String → WebTransport → WebTransport
on_hello opts fails methods c =
    if same_state c.ready_state connecting
    then send_auth_request opts fails methods
        (emit (got_hello methods) (record c { ready_state = authenticating }))
    else give_up (unexpected "hello") c

unfoldable pub on_auth_ok : String → WebTransport → WebTransport
on_auth_ok session_id c =
    if same_state c.ready_state authenticating
    then emit (is_ready session_id) (record c { ready_state = ready; reconnect_attempts = 0 })
    else give_up (unexpected "auth_ok") c

unfoldable pub on_auth_fail : String → WebTransport → WebTransport
on_auth_fail reason c =
    if same_state c.ready_state authenticating
    then emit (auth_failed reason)
        (cancel_reconnect (record c { auth_rejected = true; closed_by_us = true }))
    else give_up (unexpected "auth_fail") c

-- A message of the given type that is handed on as the given event.
unfoldable pub on_payload : String → WebEvent → WebTransport → WebTransport
on_payload type event c =
    if same_state c.ready_state ready then emit event c else give_up (unexpected type) c

unfoldable pub on_goodbye : Option Json → WebTransport → WebTransport
on_goodbye reason c =
    emit (got_goodbye reason)
      (cancel_reconnect (record c { closed_by_us = true; ready_state = disconnected }))

unfoldable pub handle_typed : WebOptions → Bool → Fields → String → WebTransport → WebTransport
handle_typed opts fails rec type c =
    if type == "hello"
    then on_hello opts fails (string_array opts (field_of rec "auth_methods")) c
    else if type == "auth_ok"
    then on_auth_ok (shown opts (field_of rec "session_id")) c
    else if type == "auth_fail"
    then on_auth_fail (shown opts (field_of rec "reason")) c
    else if type == "data"
    then on_payload "data" (got_data (shown opts (field_of rec "data"))) c
    else if type == "binary"
    then on_payload "binary" (got_binary (decode_base64 opts (shown opts (field_of rec "data")))) c
    else if type == "terminal_output"
    then on_payload "terminal_output"
        (got_output (decode_base64 opts (shown opts (field_of rec "data")))) c
    else if type == "pong"
    then on_payload "pong" got_pong c
    else if type == "goodbye"
    then on_goodbye (field_of rec "reason") c
    else give_up (unknown_type (some (string type))) c

unfoldable pub handle_object :
    WebOptions → Bool → Fields → Option Json → WebTransport → WebTransport
handle_object opts fails rec (some (string type)) c = handle_typed opts fails rec type c
handle_object opts fails rec other c = give_up (unknown_type other) c

-- `handleText`, on what `JSON.parse` returns, `none` where it throws. To read the type of `null`
-- throws a `TypeError` that nothing catches, and changes nothing.
unfoldable pub handle_text : WebOptions → Bool → Option Json → WebTransport → WebTransport
handle_text opts fails none c = emit (failed invalid_json) c
handle_text opts fails (some null) c = c
handle_text opts fails (some (object rec)) c = handle_object opts fails rec (field_of rec "type") c
handle_text opts fails (some _) c = give_up (unknown_type none) c

unfoldable pub handle_binary : List ℕ → WebTransport → WebTransport
handle_binary bytes c = if same_state c.ready_state ready then emit (got_binary bytes) c else c

abbrev pub one_if : Bool → ℕ
one_if true = 1
one_if false = 0

-- A timer whose handle is overwritten stays pending.
unfoldable pub handle_disconnect : WebOptions → String → WebTransport → WebTransport
handle_disconnect opts reason c =
    let lost =
      emit (is_closed reason)
        (record c { ready_state = disconnected; outbound_queue = []; outbound_bytes = 0 }) in
    let attempt = c.reconnect_attempts + 1 in
    if c.closed_by_us || c.auth_rejected
    then lost
    else if not opts.reconnect
    then emit reconnect_failed lost
    else if leb opts.max_reconnect_attempts c.reconnect_attempts
    then emit reconnect_failed lost
    else emit (is_connecting attempt) (record lost {
      reconnect_attempts = attempt;
      strays = c.strays + one_if c.reconnect_timer;
      reconnect_timer = true;
    })

-- The close of a socket that is no longer kept is ignored.
unfoldable pub on_close : WebOptions → ℕ → String → WebTransport → WebTransport
on_close opts socket reason c = elim c.ws [
  | none ↦ c
  | some n ↦ if n === socket then handle_disconnect opts reason (record c { ws = none }) else c
]

-- The reconnect is due whose handle is kept, or a stray one, which drops that handle.
unfoldable pub on_reconnect : Bool → WebTransport → WebTransport
on_reconnect kept c =
    if kept
    then (if c.reconnect_timer then open_socket (record c { reconnect_timer = false }) else c)
    else if ltb 0 c.strays
    then open_socket
        (record c { strays = c.strays - 1 + one_if c.reconnect_timer; reconnect_timer = false })
    else c

pub data Event : Type 0 where
  socket_opens socket_fails : Event
  text_arrives : (text : Option Json) (fails : Bool) → Event
  binary_arrives : (bytes : List ℕ) → Event
  socket_closes : (socket : ℕ) (reason : String) → Event
  reconnect_is_due : (kept : Bool) → Event
  owner_connects owner_destroys : Event
  owner_closes : (fails : Bool) → Event
  owner_sends : (r : Request) (open_ : Bool) (fails : ℕ → Bool) → Event

module _ (opts : WebOptions) where
  unfoldable pub step : Event → WebTransport → WebTransport
  step socket_opens c = emit is_open c
  step socket_fails c = emit (failed websocket_error) c
  step (text_arrives text fails) c = handle_text opts fails text c
  step (binary_arrives bytes) c = handle_binary bytes c
  step (socket_closes socket reason) c = on_close opts socket reason c
  step (reconnect_is_due kept) c = on_reconnect kept c
  step owner_connects c = connect c
  step owner_destroys c = destroy c
  step (owner_closes fails) c = close fails c
  step (owner_sends r open_ fails) c = (submit opts open_ fails r c).1

  unfoldable pub run : List Event → WebTransport → WebTransport
  run [] c = c
  run (e ∷ events) c = run events (step e c)
