-- ===== src/Ruby/Text/Runs.antt =====
-- A run of the gem's function, and the theorem there.
use livekit_server_cpp.CApi.Fields.{encode}
use livekit_server_cpp.CApi.Invoke.{
  copy_text, copy, invoke_value, envelope, or_null, caught, lks_invoke,
}
use livekit_server_cpp.CApi.Samples.{linked, a_world}
use livekit_server_cpp.Common.{subst, ◌≡◌, refl, none, some, [], ◌∷◌, ◌++◌, codes, false}
use livekit_server_cpp.Curl.Lines.{has_byte}
use livekit_server_cpp.Error.{ok}
use livekit_server_cpp.Ruby.Text.{HasNoZero, IsTextOf, lks_ruby_invoke-IsTextOf}
use livekit_server_cpp.Ruby.{lks_ruby_invoke}

plain : HasNoZero linked.json
unfolding has_byte
plain object content e =
    let same : codes "printed" ≡ content = cc in subst (λ t. has_byte 0 t ≡ false) same refl

ran : lks_ruby_invoke linked none none a_world ≡ (ok (some (codes "printed" ++ 0 ∷ [])), a_world)
unfolding lks_ruby_invoke lks_invoke caught or_null envelope invoke_value copy encode copy_text
ran = refl

lks_ruby_invoke-IsTextOf_example : IsTextOf linked none none a_world (codes "printed" ++ 0 ∷ [])
lks_ruby_invoke-IsTextOf_example =
    lks_ruby_invoke-IsTextOf linked none none a_world (codes "printed" ++ 0 ∷ []) a_world plain ran
