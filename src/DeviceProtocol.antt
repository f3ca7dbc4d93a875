-- ===== src/DeviceProtocol.antt =====
-- shared/device/protocol.ts: the messages between a device agent and the relay, and their
-- validation. `parse` is Node's `JSON.parse` of a text, a parameter as in `Framing`.
pub mod Typed
use termlink.Prelude.{
  ℕ, String, ◌==◌, Bool, true, false, ◌&&◌, ◌||◌, List, [], ◌∷◌, Option, none, some, includes,
  if◌then◌else◌,
}
use termlink.Prelude.Result.{Result, ok, err}
use termlink.Json.{
  Json, string, object, number, whole, Fields, end, field, field_of, is_string,
  is_string_or_undefined, is_text, is_nonempty_string, is_positive_integer, is_whole,
}
use termlink.Message.{tagged}

abbrev pub device_protocol_version : ℕ
device_protocol_version = 1

pub data DeviceClientMessage : Type 0 where
  device_register :
      (device_id secret : String) (enrollment_token : Option String) → DeviceClientMessage
  device_auth : (device_id secret : String) → DeviceClientMessage
  device_session_output : (session_id payload : String) → DeviceClientMessage
  device_session_failed : (session_id reason : String) → DeviceClientMessage
  device_session_exited : (session_id : String) → DeviceClientMessage
  agent_ping : DeviceClientMessage
  agent_goodbye : (reason : Option String) → DeviceClientMessage

pub data Enrollment : Type 0 where
  registered authenticated : Enrollment

pub data DeviceServerMessage : Type 0 where
  device_ok : (device_id name device_type : String) (state : Enrollment) → DeviceServerMessage
  device_err : (error : String) → DeviceServerMessage
  device_session_open : (session_id : String) (cols rows : ℕ) → DeviceServerMessage
  device_session_close : (session_id : String) (reason : Option String) → DeviceServerMessage
  device_session_input : (session_id payload : String) → DeviceServerMessage
  device_session_resize : (session_id : String) (cols rows : ℕ) → DeviceServerMessage
  device_pong : DeviceServerMessage
  relay_goodbye : (reason : Option String) → DeviceServerMessage

abbrev pub text : String → String → Fields → Fields
text name s = field name (string s)

abbrev pub optional_text : String → Option String → Fields
optional_text name none = end
optional_text name (some s) = text name s end

abbrev pub version : Fields → Fields
version = field "version" (number (whole device_protocol_version))

-- The object literal of each message.
unfoldable pub device_client_json : DeviceClientMessage → Json
device_client_json (device_register id secret token) =
    tagged "device_register"
      (version (text "deviceId" id (text "secret" secret (optional_text "enrollmentToken" token))))
device_client_json (device_auth id secret) =
    tagged "device_auth" (version (text "deviceId" id (text "secret" secret end)))
device_client_json (device_session_output id payload) =
    tagged "device_session_output" (text "sessionId" id (text "data" payload end))
device_client_json (device_session_failed id reason) =
    tagged "device_session_failed" (text "sessionId" id (text "reason" reason end))
device_client_json (device_session_exited id) =
    tagged "device_session_exited" (text "sessionId" id end)
device_client_json agent_ping = tagged "ping" end
device_client_json (agent_goodbye reason) = tagged "goodbye" (optional_text "reason" reason)

abbrev pub enrollment_text : Enrollment → String
enrollment_text registered = "registered"
enrollment_text authenticated = "authenticated"

abbrev pub sized : String → ℕ → ℕ → Fields
sized id cols rows =
    text "sessionId" id
      (field "cols" (number (whole cols)) (field "rows" (number (whole rows)) end))

unfoldable pub device_server_json : DeviceServerMessage → Json
device_server_json (device_ok id name device_type state) = tagged "device_ok" (
    version (
      text "deviceId" id (
        text "name" name
          (text "deviceType" device_type (text "state" (enrollment_text state) end)))))
device_server_json (device_err error) = tagged "device_err" (text "error" error end)
device_server_json (device_session_open id cols rows) =
    tagged "device_session_open" (sized id cols rows)
device_server_json (device_session_close id reason) =
    tagged "device_session_close" (text "sessionId" id (optional_text "reason" reason))
device_server_json (device_session_input id payload) =
    tagged "device_session_input" (text "sessionId" id (text "data" payload end))
device_server_json (device_session_resize id cols rows) =
    tagged "device_session_resize" (sized id cols rows)
device_server_json device_pong = tagged "pong" end
device_server_json (relay_goodbye reason) = tagged "goodbye" (optional_text "reason" reason)

abbrev pub client_types : List String
client_types =
    "device_register" ∷ "device_auth" ∷ "device_session_output" ∷ "device_session_failed"
    ∷ "device_session_exited" ∷ "ping" ∷ "goodbye" ∷ []

abbrev pub server_types : List String
server_types =
    "device_ok" ∷ "device_err" ∷ "device_session_open" ∷ "device_session_close"
    ∷ "device_session_input" ∷ "device_session_resize" ∷ "pong" ∷ "goodbye" ∷ []

abbrev device_text : Option Json → Option Json → Option Json → Bool
device_text v id secret =
    is_whole device_protocol_version v && (is_nonempty_string id && is_nonempty_string secret)

abbrev session_size : Option Json → Option Json → Option Json → Bool
session_size id cols rows =
    is_nonempty_string id && (is_positive_integer cols && is_positive_integer rows)

-- The `switch` on the type.
unfoldable pub valid_device_fields : String → Fields → Bool
valid_device_fields type rec =
    let id = field_of rec "sessionId" in
    let device =
      device_text (field_of rec "version") (field_of rec "deviceId") (field_of rec "secret") in
    let size = session_size id (field_of rec "cols") (field_of rec "rows") in
    if type == "device_register"
    then device && is_string_or_undefined (field_of rec "enrollmentToken")
    else if type == "device_auth"
    then device
    else if type == "device_session_output"
    then is_nonempty_string id && is_string (field_of rec "data")
    else if type == "device_session_failed"
    then is_nonempty_string id && is_string (field_of rec "reason")
    else if type == "device_session_exited"
    then is_nonempty_string id
    else if type == "device_session_open"
    then size
    else if type == "device_session_close"
    then is_nonempty_string id && is_string_or_undefined (field_of rec "reason")
    else if type == "device_session_input"
    then is_nonempty_string id && is_string (field_of rec "data")
    else if type == "device_session_resize"
    then size
    else if type == "device_ok"
    then is_whole device_protocol_version (field_of rec "version")
      && (is_string (field_of rec "deviceId")
          && (is_string (field_of rec "name")
              && (is_string (field_of rec "deviceType")
                  && (is_text "registered" (field_of rec "state")
                      || is_text "authenticated" (field_of rec "state")))))
    else if type == "device_err"
    then is_string (field_of rec "error")
    else if type == "ping"
    then true
    else if type == "pong"
    then true
    else if type == "goodbye"
    then is_string_or_undefined (field_of rec "reason")
    else false

unfoldable pub valid_device_typed : Fields → Option Json → Bool
valid_device_typed rec (some (string type)) =
    (includes client_types type || includes server_types type) && valid_device_fields type rec
valid_device_typed rec _ = false

unfoldable pub is_valid_device_message : Json → Bool
unfolding valid_device_typed valid_device_fields
is_valid_device_message (object rec) = valid_device_typed rec (field_of rec "type")
is_valid_device_message _ = false

abbrev pub typed_in : List String → Option Json → Bool
typed_in types (some (string type)) = includes types type
typed_in types _ = false

unfoldable pub is_device_client_message : Json → Bool
is_device_client_message (object rec) = typed_in client_types (field_of rec "type")
is_device_client_message _ = false

unfoldable pub is_device_server_message : Json → Bool
is_device_server_message (object rec) = typed_in server_types (field_of rec "type")
is_device_server_message _ = false

pub data DeviceFrameError : Type 0 where
  not_json not_schema : DeviceFrameError

unfoldable pub checked_device : Option Json → Result DeviceFrameError Json
checked_device none = err not_json
checked_device (some parsed) = if is_valid_device_message parsed then ok parsed else err not_schema

unfoldable pub parse_json_device_message :
    (List ℕ → Option Json) → List ℕ → Result DeviceFrameError Json
unfolding checked_device
parse_json_device_message parse text = checked_device (parse text)
