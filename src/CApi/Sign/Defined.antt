-- ===== src/CApi/Sign/Defined.antt =====
-- Reading the options of `Sign` does nothing that is undefined, and the grants keep the lifetime.
use Prim.Native.String.{String}
use livekit_server_cpp.CApi.Fields.{
  has, as_string, string_field, string_or_unset, boolean_field, bool_or_unset, object_field,
  struct_or_unset, string_list_field, strings_or_unset, strings_of,
}
use livekit_server_cpp.CApi.Integer.{integer_field, integer_of}
use livekit_server_cpp.CApi.Sign.{
  optional_boolean, video_grant_of, sip_grant_of, agent_grant_of, grant_from, grants, named_token,
}
use livekit_server_cpp.CApi.StringMap.{string_map, emplace_all, emplace}
use livekit_server_cpp.Common.{
  inl, inr, Bool-cases, ◌≡◌, ◌≢◌, refl, sym, ap, ◌∙◌, arith, Bool, true, false, Bytes, List,
  if◌then◌else◌,
}
use livekit_server_cpp.Error.{
  Result, ◌>>=◌, ok, undefined, ok-injective, bind-eq-ok, bind-undefined,
}
use livekit_server_cpp.Struct.{Value, Values, Struct}
use livekit_server_cpp.Token.Access.{AccessToken, set_video_grant, set_sip_grant, set_agent_grant}

-- Reading a field of the options.
module _ (object : Struct) (name : String) where
  string_field-undefined : string_field object name ≢ undefined
  unfolding string_field string_or_unset as_string
  string_field-undefined = ground arith

  boolean_field-undefined : boolean_field object name ≢ undefined
  unfolding boolean_field bool_or_unset
  boolean_field-undefined = ground arith

  pub object_field-undefined : object_field object name ≢ undefined
  unfolding object_field struct_or_unset
  object_field-undefined = ground arith

  pub integer_field-undefined : integer_field object name ≢ undefined
  unfolding integer_field integer_of
  integer_field-undefined =
      bind-undefined (string_field object name) _ string_field-undefined (λ content e. ground arith)

  optional_boolean-undefined : optional_boolean object name ≢ undefined
  unfolding optional_boolean
  optional_boolean-undefined = ground (arith, boolean_field-undefined)

strings_of-undefined : (items : Values) → strings_of items ≢ undefined
unfolding strings_of as_string
strings_of-undefined Values.nil = ground arith
strings_of-undefined (Values.cons item items) = ground (arith, strings_of-undefined items)

strings_or_unset-undefined : (value : Value) → strings_or_unset value ≢ undefined
unfolding strings_or_unset
strings_or_unset-undefined (Value.list items) = strings_of-undefined items
strings_or_unset-undefined Value.not_set = ground arith
strings_or_unset-undefined _ = ground arith

string_list_field-undefined :
    (object : Struct) (name : String) → string_list_field object name ≢ undefined
unfolding string_list_field
string_list_field-undefined object name = strings_or_unset-undefined _

emplace_all-undefined :
    (pairs : List (Bytes × Bytes)) (object : Struct) → emplace_all pairs object ≢ undefined
unfolding emplace_all as_string
emplace_all-undefined pairs Struct.empty = ground arith
emplace_all-undefined pairs (Struct.field key (Value.string content) fields) =
    emplace_all-undefined (emplace key content pairs) fields
emplace_all-undefined pairs (Struct.field key _ fields) = ground arith

pub ok-undefined {ℓ} : {A : Type ℓ} (a : A) → ok a ≢ undefined
ok-undefined a h = cc

-- One step behind another.
pub then_undefined {κ ℓ} :
    {S : Type κ} {T : Type ℓ} (first : Result S) (rest : S → Result T)
    → first ≢ undefined
    → ((value : S) → rest value ≢ undefined)
    → first >>= rest ≢ undefined
then_undefined first rest defined next = bind-undefined first rest defined (λ value e. next value)

ruleset reading = (
  string_field-undefined, boolean_field-undefined, object_field-undefined,
  optional_boolean-undefined, string_list_field-undefined, then_undefined, ok-undefined,
)

video_grant_of-undefined : (fields : Struct) → video_grant_of fields ≢ undefined
unfolding video_grant_of
video_grant_of-undefined fields = search reading depth 40

sip_grant_of-undefined : (fields : Struct) → sip_grant_of fields ≢ undefined
unfolding sip_grant_of
sip_grant_of-undefined fields = search reading depth 10

agent_grant_of-undefined : (fields : Struct) → agent_grant_of fields ≢ undefined
unfolding agent_grant_of
agent_grant_of-undefined fields = search reading depth 10

pub named_token-undefined : (options : Struct) → named_token options ≢ undefined
unfolding named_token string_map
named_token-undefined options = search (reading, emplace_all-undefined) depth 20

module _ {Grant : Type 0} (name : String) (read : Struct → Result Grant)
    (set : Grant → AccessToken → AccessToken) (options : Struct) (token : AccessToken) where
  grant_from-undefined :
      ((fields : Struct) → read fields ≢ undefined)
      → grant_from name read set options token ≢ undefined
  unfolding grant_from
  grant_from-undefined defined = elim (Bool-cases (has options name)) [
    | inl e ↦ rw e (search (reading, defined) depth 10)
    | inr e ↦ rw e (ok-undefined token)
  ]

  -- A grant leaves the lifetime as it is.
  grant_from-valid_for :
      {granted : AccessToken}
      → ((grant : Grant) → (set grant token).valid_for ≡ token.valid_for)
      → grant_from name read set options token ≡ ok granted
      → granted.valid_for ≡ token.valid_for
  unfolding grant_from
  grant_from-valid_for {granted} keeps h = go (has options name) h
    where
      go :
          (given : Bool)
          → (if given
              then (object_field options name >>= λ fields.
                  read fields >>= λ grant. ok (set grant token))
              else ok token)
            ≡ ok granted
          → granted.valid_for ≡ token.valid_for
      go true h =
          let (fields, e, k) = bind-eq-ok (object_field options name) _ h in
          let (grant, e₁, k₁) = bind-eq-ok (read fields) _ k in
          sym (ap (λ t. t.valid_for) (ok-injective k₁)) ∙ keeps grant
      go false h = sym (ap (λ t. t.valid_for) (ok-injective h))

pub grants-undefined : (options : Struct) (token : AccessToken) → grants options token ≢ undefined
unfolding grants
grants-undefined options token =
    search
      (
        then_undefined, grant_from-undefined, video_grant_of-undefined, sip_grant_of-undefined,
        agent_grant_of-undefined,
      )
      depth 10

pub grants-valid_for :
    (options : Struct) (token granted : AccessToken)
    → grants options token ≡ ok granted
    → granted.valid_for ≡ token.valid_for
unfolding grants set_video_grant set_sip_grant set_agent_grant
grants-valid_for options token granted h =
    let (with_video, e, h₁) =
      bind-eq-ok (grant_from "video" video_grant_of set_video_grant options token) _ h in
    let (with_sip, e₁, h₂) =
      bind-eq-ok (grant_from "sip" sip_grant_of set_sip_grant options with_video) _ h₁ in
    grant_from-valid_for _ agent_grant_of set_agent_grant options with_sip (λ grant. refl) h₂
    ∙ grant_from-valid_for _ sip_grant_of set_sip_grant options with_video (λ grant. refl) e₁
    ∙ grant_from-valid_for _ video_grant_of set_video_grant options token (λ grant. refl) e
