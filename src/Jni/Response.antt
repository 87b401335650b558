-- ===== src/Jni/Response.antt =====
-- How an operation of the C API ended, as Java sees it.
use livekit_server_cpp.CApi.Fields.{struct_of}
use livekit_server_cpp.CApi.Invoke.{envelope}
use livekit_server_cpp.CApi.Options.{failure}
use livekit_server_cpp.Common.Int.{pos}
use livekit_server_cpp.Common.Lists.{equal}
use livekit_server_cpp.Common.{◌≡◌, ◌⊎◌, inl, inr, refl, sym, ap}
use livekit_server_cpp.Error.{Error, error_code_value, Result, ok, throw, undefined, ok-injective}
use livekit_server_cpp.Jni.{
  LiveKitException, string_value, bool_value, number_value, field_or_empty, string_of,
  response_from,
}
use livekit_server_cpp.Struct.{Value, Struct, find_field}

-- The exception for an error.
abbrev pub exception_of : Error → LiveKitException
exception_of error = record {
  message = error.message;
  code = pos (error_code_value error.code);
  http_status = error.http_status;
  twirp_code = error.twirp_code;
}

-- Java gets the value that the operation returned, or an exception with all that its error says.
pub response_from-envelope :
    (outcome : Result Value) (response : Struct)
    → envelope outcome ≡ ok response
    → ((value : Value) × (outcome ≡ ok value) × (response_from response ≡ inl value))
      ⊎ ((error : Error) × (outcome ≡ throw error)
          × (response_from response ≡ inr (exception_of error)))
unfolding envelope failure response_from bool_value number_value field_or_empty string_of
    string_value find_field struct_of equal
response_from-envelope (ok value) response h =
    inl (value, refl, ap response_from (sym (ok-injective h)))
response_from-envelope (throw error) response h =
    inr (error, refl, ap response_from (sym (ok-injective h)))
response_from-envelope undefined response h = cc
