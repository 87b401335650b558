-- ===== src/CApi/Keys.antt =====
-- src/c_api.cpp: the key provider of `Receive`.
use livekit_server_cpp.CApi.Fields.{text, string_field, boolean_field, object_field, struct_of}
use livekit_server_cpp.CApi.Host.{Callback, exchange}
use livekit_server_cpp.CApi.StringMap.{string_map}
use livekit_server_cpp.Common.{[], ◌∷◌, codes, if◌then◌else◌}
use livekit_server_cpp.Error.{Result, ok, ◌>>=◌}
use livekit_server_cpp.Struct.{Struct, JsonLibrary}
use livekit_server_cpp.Webhook.{KeyProvider, key_map}

module _ (json : JsonLibrary) (callback : Callback) where
  -- The key provider that asks the host.
  unfoldable pub asked_key : KeyProvider
  asked_key key = do
    answer ←
        exchange json callback (struct_of (("kind", text (codes "key")) ∷ ("key", text key) ∷ []))
    string_field answer "secret"

  -- The receiver's key provider: the host, or the secrets of the options.
  unfoldable pub key_provider_of : Struct → Result KeyProvider
  key_provider_of options = boolean_field options "use_key_provider" >>= λ asks.
      if asks
      then ok asked_key
      else (object_field options "secrets" >>= λ object.
          string_map object >>= λ secrets. ok (key_map secrets))
