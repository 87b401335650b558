-- ===== src/Context.antt =====
-- src/detail/client_context.cpp and src/detail/client_context.h: `ClientContext`, which every service
-- client shares. Protobuf's serialization and parsing are arguments of a call.
pub mod Url
pub mod Create
pub mod Call
pub mod Exchange
pub mod Ready
pub mod Uuid
pub mod Sent
pub mod Outcome
mod Runs
use livekit_server_cpp.Common.{
  ℕ, zero, suc, ◌+◌, ◌-◌, ◌*◌, ◌/◌, ◌%◌, ◌^◌, Bool, true, false, not, ◌&&◌, ◌||◌, Option, none,
  some, List, [], ◌∷◌, ◌++◌, Bytes, codes, ltb, leb, ◌==◌, if◌then◌else◌, length, drop, is_empty,
  starts_with,
}
use Prim.Native.Nat.{bit_and, bit_or}
use livekit_server_cpp.Common.Decimal.{decimal_int}
use livekit_server_cpp.Common.Int.{ℤ, pos, leb_ℤ, ltb_ℤ}
use livekit_server_cpp.Error.{ErrorCode, Error, Result, ok, throw, undefined, fail, throw_if}
use livekit_server_cpp.Http.{
  HttpRequest, HttpResponse, HttpTransport, ApiOptions, Machine, World, Action, ◌>>=◌, ◌>>◌, lift,
  done, send, read_clock, random_bytes,
}
use livekit_server_cpp.Struct.{Value, Struct, find_field, JsonLibrary}
use livekit_server_cpp.Token.Access.{
  AccessToken, access_token, set_video_grant, set_sip_grant, set_agent_grant, to_jwt,
}
use livekit_server_cpp.Token.{VideoGrant, SipGrant, AgentGrant, hex_digit}

-- `Environment`.
unfoldable pub environment : Machine → Bytes → Bytes
environment machine name = elim (machine.environment name) [ none ↦ [] | some value ↦ value ]

-- `RequestId`: two hexadecimal digits for each byte, with dashes in front of four of them.
unfoldable pub hex_bytes : ℕ → Bytes → Bytes
hex_bytes index [] = []
hex_bytes index (byte ∷ bytes) =
    (if index == 4 || index == 6 || index == 8 || index == 10 then b'-' ∷ [] else [])
    ++ hex_digit (byte / 16) ∷ hex_digit (byte % 16) ∷ hex_bytes (index + 1) bytes

-- `bytes[at] = change(bytes[at])`.
unfoldable pub update_at : ℕ → (ℕ → ℕ) → Bytes → Bytes
update_at at change [] = []
update_at zero change (byte ∷ bytes) = change byte ∷ bytes
update_at (suc at) change (byte ∷ bytes) = byte ∷ update_at at change bytes

unfoldable pub request_id_text : Bytes → Bytes
request_id_text bytes = hex_bytes 0 (
    update_at 8 (λ byte. bit_or (bit_and byte 0x3f) 0x80)
      (update_at 6 (λ byte. bit_or (bit_and byte 0x0f) 0x40) bytes))

unfoldable pub request_id : Machine → Action Bytes
request_id machine = random_bytes machine 16 >>= λ bytes. done (request_id_text bytes)

-- `JsonStringField`: empty where the text or the field is something else.
unfoldable pub json_string_field : JsonLibrary → Bytes → Bytes → Bytes
json_string_field library json name = elim (library.to_struct json) [
  | none ↦ []
  | some object ↦ elim (find_field name object) [ some (Value.string text) ↦ text | _ ↦ [] ]
]

pub record RequestGrant : Type 0 where
  pub video : Option VideoGrant
  pub sip : Option SipGrant
  pub agent : Option AgentGrant

pub record ClientContext : Type 0 where
  pub url : Bytes
  pub api_key : Bytes
  pub api_secret : Bytes
  pub access_token : Bytes
  pub timeout : ℤ
  pub transport : HttpTransport

-- The key, the secret and the token: the options', or else the environment's.
pub record Credentials : Type 0 where
  pub api_key : Bytes
  pub api_secret : Bytes
  pub access_token : Bytes

-- `access_token_.empty() && api_key_.empty() && api_secret_.empty()`.
abbrev pub no_credentials : Credentials → Bool
no_credentials c = is_empty c.access_token && is_empty c.api_key && is_empty c.api_secret

abbrev pub token_fallback : Machine → Credentials → Credentials
token_fallback machine c =
    if no_credentials c
    then record c { access_token = environment machine (codes "LIVEKIT_TOKEN") }
    else c

abbrev pub key_fallback : Machine → Credentials → Credentials
key_fallback machine c =
    if no_credentials c
    then record c {
      api_key = environment machine (codes "LIVEKIT_API_KEY");
      api_secret = environment machine (codes "LIVEKIT_API_SECRET");
    }
    else c

unfoldable pub credentials : Machine → ApiOptions → Credentials
credentials machine options = key_fallback machine (
    token_fallback machine (record {
      api_key = options.api_key;
      api_secret = options.api_secret;
      access_token = options.access_token;
    }))
