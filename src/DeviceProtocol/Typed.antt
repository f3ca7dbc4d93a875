-- ===== src/DeviceProtocol/Typed.antt =====
-- Which messages of a device agent and of the relay pass the validation.
use termlink.Prelude.{◌≡◌, Bool, true, false, ◌&&◌, none, some, truthy, ltb, arith}
use termlink.DeviceProtocol.{
  DeviceClientMessage, device_register, device_auth, device_session_output, device_session_failed,
  device_session_exited, agent_goodbye, registered, authenticated, DeviceServerMessage, device_ok,
  device_session_open, device_session_close, device_session_input, device_session_resize,
  relay_goodbye, device_client_json, device_server_json, is_valid_device_message,
  is_device_client_message, is_device_server_message,
}

-- The ids and secrets that must not be empty.
abbrev pub is_named : DeviceClientMessage → Bool
is_named (device_register id secret token) = truthy id && truthy secret
is_named (device_auth id secret) = truthy id && truthy secret
is_named (device_session_output id payload) = truthy id
is_named (device_session_failed id reason) = truthy id
is_named (device_session_exited id) = truthy id
is_named _ = true

abbrev pub is_agent_goodbye : DeviceClientMessage → Bool
is_agent_goodbye (agent_goodbye reason) = true
is_agent_goodbye _ = false

-- A message of an agent passes exactly if its ids and its secret are not empty; and it is taken
-- for a message of an agent always, and for one of the relay only if it is a goodbye.
device_client_json-valid :
    (m : DeviceClientMessage)
    → (is_valid_device_message (device_client_json m) ≡ is_named m)
      × (is_device_client_message (device_client_json m) ≡ true)
      × (is_device_server_message (device_client_json m) ≡ is_agent_goodbye m)
unfolding device_client_json is_valid_device_message is_device_client_message
    is_device_server_message
device_client_json-valid (device_register id secret none) = ground arith
device_client_json-valid (device_register id secret (some token)) = ground arith
device_client_json-valid (agent_goodbye none) = ground arith
device_client_json-valid (agent_goodbye (some reason)) = ground arith
device_client_json-valid _ = ground arith

-- The sizes that must be positive, and the ids that must not be empty.
abbrev pub is_sized : DeviceServerMessage → Bool
is_sized (device_session_open id cols rows) = truthy id && (ltb 0 cols && ltb 0 rows)
is_sized (device_session_resize id cols rows) = truthy id && (ltb 0 cols && ltb 0 rows)
is_sized (device_session_close id reason) = truthy id
is_sized (device_session_input id payload) = truthy id
is_sized _ = true

abbrev pub is_relay_goodbye : DeviceServerMessage → Bool
is_relay_goodbye (relay_goodbye reason) = true
is_relay_goodbye _ = false

-- A message of the relay passes exactly if its session id is not empty and its terminal size is
-- positive; and it is taken for a message of the relay always, and for one of an agent only if it
-- is a goodbye.
device_server_json-valid :
    (m : DeviceServerMessage)
    → (is_valid_device_message (device_server_json m) ≡ is_sized m)
      × (is_device_server_message (device_server_json m) ≡ true)
      × (is_device_client_message (device_server_json m) ≡ is_relay_goodbye m)
unfolding device_server_json is_valid_device_message is_device_client_message
    is_device_server_message
device_server_json-valid (device_ok id name device_type registered) = ground arith
device_server_json-valid (device_ok id name device_type authenticated) = ground arith
device_server_json-valid (device_session_close id none) = ground arith
device_server_json-valid (device_session_close id (some reason)) = ground arith
device_server_json-valid (relay_goodbye none) = ground arith
device_server_json-valid (relay_goodbye (some reason)) = ground arith
device_server_json-valid _ = ground arith
