-- ===== src/Ruby.antt =====
-- pkg/ruby/src/livekit_server_ruby.cpp: the functions that the Ruby gem calls.
pub mod Text
use livekit_server_cpp.CApi.Host.{Callback, Reply}
use livekit_server_cpp.CApi.Invoke.{Linked, Output, lks_invoke, lks_abi_version}
use livekit_server_cpp.Common.{
  ℕ, ◌≡◌, Bool, Option, none, some, [], ◌∷◌, Bytes, ◌==◌, if◌then◌else◌,
}
use livekit_server_cpp.Common.Int.{pos}
use livekit_server_cpp.Error.{Result}
use livekit_server_cpp.Http.{Action, ◌>>=◌, done}

-- The text at a pointer to a block of memory: what stands before the first zero byte. Its length is
-- `std::strlen`, which is undefined on a block without a zero byte: `none`.
unfoldable pub c_text : Bytes → Option Bytes
c_text [] = none
c_text (c ∷ memory) =
    let rest = c_text memory in
    if c == 0 then some [] else elim rest [ none ↦ none | some text ↦ some (c ∷ text) ]

-- The gem's callback; `none` is a null pointer that it returns. Another pointer has a text.
abbrev pub RubyCallback : Type 0
RubyCallback = Bytes → Option ((memory : Bytes) × (text : Bytes) × (c_text memory ≡ some text))

-- What `Exchange` does with the pointer.
unfoldable pub ruby_reply :
    Option ((memory : Bytes) × (text : Bytes) × (c_text memory ≡ some text)) → Reply
ruby_reply none = record { returned = pos 1; response = none }
ruby_reply (some (memory, text, read)) = record { returned = pos 0; response = some text }

-- `callback ? Exchange : nullptr`
unfoldable pub ruby_host : Option RubyCallback → Callback
ruby_host none = none
ruby_host (some callback) = some (λ input. ruby_reply (callback input))

-- `lks_ruby_invoke`: the block alone.
unfoldable pub lks_ruby_invoke : Linked → Option Bytes → Option RubyCallback → Action (Option Bytes)
lks_ruby_invoke linked input callback =
    lks_invoke linked (ruby_host callback) input >>= λ output. done output.block

-- `lks_ruby_abi_version`.
abbrev pub lks_ruby_abi_version : ℕ
lks_ruby_abi_version = lks_abi_version
