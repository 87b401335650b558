-- ===== src/CApi/Invoke.antt =====
-- src/c_api.cpp: `lks_invoke`, with `Execute` and what both return as JSON; and the constructor of
-- `LiveKitApi` in src/livekit_api.cpp. protobuf's generated code and `malloc` are parameters.
pub mod Answer
pub mod Token
pub mod Signed
pub mod Sent
use livekit_server_cpp.CApi.Fields.{text, string_field, object_field, parse, encode, struct_of}
use livekit_server_cpp.CApi.Host.{Callback}
use livekit_server_cpp.CApi.Operations.{Protocol, call_by_name, get_dispatch_model}
use livekit_server_cpp.CApi.Options.{options_of, live_kit_api, failure}
use livekit_server_cpp.CApi.Receive.{receive}
use livekit_server_cpp.CApi.Sign.{sign}
use livekit_server_cpp.Common.Int.{int_max}
use livekit_server_cpp.Common.{
  ℕ, ◌+◌, Bool, true, false, not, Option, none, some, [], ◌∷◌, ◌++◌, Bytes, codes, leb, equal,
  if◌then◌else◌, length,
}
use livekit_server_cpp.Error.{ErrorCode, Result, ok, throw, undefined, fail, throw_if}
use livekit_server_cpp.Http.{Machine, Action, ◌>>=◌, ◌>>◌, lift, done}
use livekit_server_cpp.Services.Model.{ProtocolModel}
use livekit_server_cpp.Services.{Client}
use livekit_server_cpp.Struct.{Value, Struct, JsonLibrary}
use livekit_server_cpp.Webhook.{Parsed}

unfoldable pub check_length : Bytes → Result (Unit {0})
check_length input =
    throw_if (not (leb (length input) int_max)) ErrorCode.invalid_argument
      "invalid C ABI input buffer"

-- What the library is linked to. `malloc` says whether so many bytes are to be had.
pub record Linked : Type 1 where
  pub machine : Machine
  pub json : JsonLibrary
  pub parse_event : Bytes → Parsed
  pub protocol : Protocol
  pub malloc : ℕ → Bool

-- What `lks_invoke` returns, and what it stores at `output_length`.
pub record Output : Type 0 where
  pub block : Option Bytes
  pub output_length : ℕ

abbrev pub no_output : Output
no_output = record { block = none; output_length = 0 }

-- The value for what `GetDispatchModel` found.
unfoldable pub dispatch_value : Option ProtocolModel → Value
dispatch_value none = Value.null
dispatch_value (some model) = text model.json

-- `{"ok": true, "value": ...}` or a failure, from what `Execute` did.
unfoldable pub envelope : Result Value → Result Struct
envelope (ok value) = ok (struct_of (("value", value) ∷ ("ok", Value.bool true) ∷ []))
envelope (throw error) = ok (failure error)
envelope undefined = undefined

-- `catch (...) { return nullptr; }`
unfoldable pub or_null : Result Output → Result Output
or_null (throw error) = ok no_output
or_null (ok output) = ok output
or_null undefined = undefined

-- The catch clauses about a computation.
unfoldable pub caught : {A B : Type 0} → (Result A → Result B) → Action A → Action B
caught handle action world = (handle (action world).0, (action world).1)

module _ (linked : Linked) (callback : Callback) where
  -- An operation of the API, on a `LiveKitApi` that has been made.
  unfoldable pub execute_on : Client → Bytes → Struct → Action Value
  execute_on client operation input =
      if equal operation (codes "get_dispatch")
      then (do
        dispatch_id ← lift (string_field input "dispatch_id")
        room ← lift (string_field input "room")
        found ← get_dispatch_model client linked.protocol dispatch_id room
        done (dispatch_value found))
      else (do
        request ← lift (string_field input "request")
        response ← call_by_name client linked.protocol operation request
        done (text response))

  unfoldable pub execute_call : Bytes → Struct → Struct → Action Value
  execute_call operation options input = do
    settings ← lift (options_of linked.json callback options)
    client ← lift (live_kit_api linked.machine linked.json settings)
    execute_on client operation input

  -- `Sign` as an action.
  unfoldable pub execute_sign : Struct → Action Value
  execute_sign options = do
    jwt ← lift (sign linked.machine.evp linked.machine.ticks_per_second options)
    done (text jwt)

  unfoldable pub execute_operation : Bytes → Struct → Struct → Action Value
  execute_operation operation options input =
      if equal operation (codes "token")
      then execute_sign options
      else if equal operation (codes "webhook")
      then receive linked.machine linked.json linked.parse_event callback options
      else execute_call operation options input

  -- `Execute`.
  unfoldable pub execute : Struct → Action Value
  execute input = do
    operation ← lift (string_field input "operation")
    options ← lift (object_field input "options")
    execute_operation operation options input

  -- The inner `try`: `none` is a null pointer.
  unfoldable pub invoke_value : Option Bytes → Action Value
  invoke_value none = lift (fail ErrorCode.invalid_argument "invalid C ABI input buffer")
  invoke_value (some input) = do
    lift (check_length input)
    object ← lift (parse linked.json input)
    execute object

  -- The block that is allocated and filled, if there is one: the text and a zero byte.
  unfoldable pub copy_text : Bytes → Output
  copy_text content =
      if linked.malloc (length content + 1)
      then record { block = some (content ++ 0 ∷ []); output_length = length content }
      else no_output

  -- `Copy`.
  unfoldable pub copy : Struct → Result Output
  copy response = elim (encode linked.json response) [
    | ok content ↦ ok (copy_text content)
    | throw error ↦ throw error
    | undefined ↦ undefined
  ]

  -- `lks_invoke`.
  unfoldable pub lks_invoke : Option Bytes → Action Output
  lks_invoke input =
      caught or_null (caught envelope (invoke_value input) >>= λ response. lift (copy response))

-- `lks_abi_version`.
abbrev pub lks_abi_version : ℕ
lks_abi_version = 1
