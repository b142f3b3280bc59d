-- ===== src/Facade/Errors.antt =====
-- IrohBridgeError, errorCodeFor and normalizeRustError of react-native/src/index.js.
use Prim.Native.String
use text.Mathlib.Text.{◌==◌ as str_eq, find?}
use iroh_react_native_bridge.Base.{String, Bool, true, false, Option, none, some, if◌then◌else◌}
use iroh_react_native_bridge.Node.Errors.{
  IrohBridgeError, already_started, not_started, not_connected, invalid_node_id, invalid_address,
  invalid_ticket, invalid_dial_target, invalid_frame, operation_failed, internal_error,
}

-- The class IrohBridgeError, without its cause.
pub record BridgeError : Type 0 where
  pub message : String
  pub code : String

-- What reaches normalizeRustError here: an error that the generated bindings throw for one of Rust,
-- an IrohBridgeError, or any other Error, by its message.
pub data Thrown : Type 0 where
  of_rust : IrohBridgeError → Thrown
  bridge_error : BridgeError → Thrown
  of_js : String → Thrown

-- `error.tag` and `error.inner.message` of the generated bindings
abbrev pub tag_of : IrohBridgeError → String
tag_of already_started = "AlreadyStarted"
tag_of not_started = "NotStarted"
tag_of not_connected = "NotConnected"
tag_of invalid_node_id = "InvalidNodeId"
tag_of (invalid_address message) = "InvalidAddress"
tag_of (invalid_ticket message) = "InvalidTicket"
tag_of (invalid_dial_target message) = "InvalidDialTarget"
tag_of invalid_frame = "InvalidFrame"
tag_of (operation_failed message) = "OperationFailed"
tag_of internal_error = "InternalError"

abbrev pub inner_message : IrohBridgeError → String
inner_message (invalid_address message) = message
inner_message (invalid_ticket message) = message
inner_message (invalid_dial_target message) = message
inner_message (operation_failed message) = message
inner_message _ = ""

abbrev pub is_some {ℓ} : {A : Type ℓ} → Option A → Bool
is_some none = false
is_some (some a) = true

-- String.prototype.includes
abbrev pub includes : String → String → Bool
includes s t = is_some (find? s t)

-- errorCodeFor, for a message that goes with none of `tagCodes`.
unfoldable pub code_of_message : String → String → String
code_of_message fallback message =
    if includes message "connect timed out"
    then "DIAL_TIMEOUT"
    else if includes message "stream open timed out"
    then "STREAM_OPEN_TIMEOUT"
    else if includes message "send queue is full"
    then "BACKPRESSURE"
    else fallback

-- errorCodeFor for the tag of an error of Rust.
unfoldable pub error_code_for : IrohBridgeError → String → String
unfolding code_of_message
error_code_for already_started message = "ALREADY_STARTED"
error_code_for not_started message = "NOT_STARTED"
error_code_for not_connected message = "NOT_CONNECTED"
error_code_for invalid_node_id message = "INVALID_NODE_ID"
error_code_for (invalid_address m) message = "INVALID_ADDRESS"
error_code_for (invalid_ticket m) message = "INVALID_TICKET"
error_code_for (invalid_dial_target m) message = "INVALID_DIAL_TARGET"
error_code_for invalid_frame message = "INVALID_FRAME"
error_code_for (operation_failed m) message = code_of_message "OPERATION_FAILED" message
error_code_for internal_error message = "INTERNAL"

-- An empty inner message counts as none.
abbrev pub message_of : String → String → String
message_of tag inner =
    if str_eq inner ""
    then String.◌++◌ "IrohBridgeError." tag
    else String.◌++◌ "IrohBridgeError." (String.◌++◌ tag (String.◌++◌ ": " inner))

unfoldable pub normalize_rust_error : Thrown → BridgeError
unfolding error_code_for code_of_message
normalize_rust_error (bridge_error error) = error
normalize_rust_error (of_rust error) =
    let message = message_of (tag_of error) (inner_message error) in
    record { message = message; code = error_code_for error message }
normalize_rust_error (of_js message) = record {
  message = message;
  code = code_of_message "UNKNOWN" message;
}
