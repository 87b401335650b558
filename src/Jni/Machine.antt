-- ===== src/Jni/Machine.antt =====
-- pkg/java/src/main/cpp/livekit_server_jni.cpp: what the binding asks of the Java machine, and how it
-- takes bytes and texts over. The machine is a parameter: each operation returns, or leaves a Java
-- exception pending, for which the binding tests at once.
use Prim.Native.String.{String}
use livekit_server_cpp.Common.{
  ℕ, not, Option, none, some, List, [], Bytes, codes, leb, ◌==◌, if◌then◌else◌, length,
}
use livekit_server_cpp.Common.Int.{ℤ, int_max}
use livekit_server_cpp.Error.{ErrorCode, plain_error, Result, ok, throw}
use livekit_server_cpp.Jni.{LiveKitException}
use livekit_server_cpp.Jni.Response.{exception_of}

-- How code of the binding ends: it returns, throws `PendingException` where a Java exception, told by a
-- number, is pending, throws an `Error` of which these are the parts, or is undefined.
pub data Native (A : Type 0) : Type 0 where
  returned : A → Native A
  pending : ℕ → Native A
  thrown : LiveKitException → Native A
  stuck : Native A

abbrev pub ◌>>=◌ : {S T : Type 0} → Native S → (S → Native T) → Native T
returned value >>= rest = rest value
pending exception >>= rest = pending exception
thrown error >>= rest = thrown error
stuck >>= rest = stuck

abbrev pub ◌>>◌ : {T : Type 0} → Native (Unit {0}) → Native T → Native T
first >> rest = first >>= λ _. rest

infixl 5 ◌>>◌ ◌>>=◌
abbrev pub refused : {A : Type 0} → ErrorCode → String → Native A
refused code message = thrown (exception_of (plain_error code (codes message)))

-- What the library's own code returns or throws.
unfoldable pub native : {A : Type 0} → Result A → Native A
native (ok value) = returned value
native (throw error) = thrown (exception_of error)
native Result.undefined = stuck

-- The arguments of `send` in Java: the headers are names and values in turn.
pub record JavaRequest (S : Type 0) : Type 0 where
  pub url : S
  pub method : S
  pub headers : List S
  pub body : Bytes
  pub timeout : ℤ

-- A `HttpResponse` of Java: what its two methods do. The body may be null.
pub record JavaResponse : Type 0 where
  pub status_code : Native ℤ
  pub body : Native (Option Bytes)

-- `JNIEnv`, with the types of the strings and the objects of Java.
pub record Jvm : Type 1 where
  pub JavaString : Type 0
  pub push_local_frame : ℕ → Native (Unit {0})
  pub find_class : String → Native (Unit {0})
  pub method_id : String → String → Native (Unit {0})
  pub new_byte_array : ℕ → Native (Unit {0})
  pub set_region : Bytes → Native (Unit {0})
  pub get_region : Bytes → Native Bytes
  pub new_string_array : ℕ → Native (Unit {0})
  pub set_element : ℕ → JavaString → Native (Unit {0})
  pub native_text : Bytes → Native JavaString
  pub native_bytes : JavaString → Native (Option Bytes)
  pub modified_utf8 : JavaString → Native Bytes
  pub new_exception : LiveKitException → Native (Unit {0})
  pub JavaObject : Type 0
  pub ensure_local_capacity : ℕ → Native (Unit {0})
  pub new_record : String → List JavaString → Native JavaObject
  pub new_event :
      JavaString → JavaString → ℤ → List (Option JavaObject) → JavaString → Native JavaObject

module _ (jvm : Jvm) where
  -- `Bytes` of an array that may be null.
  unfoldable pub from_array : Option Bytes → Native Bytes
  from_array none = refused ErrorCode.invalid_argument "byte array must not be null"
  from_array (some content) = if length content == 0 then returned [] else jvm.get_region content

  unfoldable pub fill_array : Bytes → Native Bytes
  fill_array content = do
    jvm.new_byte_array (length content)
    if length content == 0 then returned tt else jvm.set_region content
    returned content

  -- `Bytes` of a text.
  unfoldable pub to_array : Bytes → Native Bytes
  to_array content =
      if not (leb (length content) int_max)
      then refused ErrorCode.invalid_argument "native result exceeds Java array size"
      else fill_array content

  -- `Text`.
  unfoldable pub java_text : Bytes → Native jvm.JavaString
  java_text content = do
    bytes ← to_array content
    jvm.find_class "io/livekit/server/Native"
    jvm.method_id "io/livekit/server/Native" "text"
    jvm.native_text bytes

  -- `Utf8`.
  unfoldable pub utf8 : jvm.JavaString → Native Bytes
  utf8 content = do
    jvm.find_class "io/livekit/server/Native"
    jvm.method_id "io/livekit/server/Native" "bytes"
    bytes ← jvm.native_bytes content
    from_array bytes
