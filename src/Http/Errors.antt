-- ===== src/Http/Errors.antt =====
-- http.go: the JSON of an error (jsonFields, drop, openAIErrorJSON), and the headers of a request as they
-- may be logged (debugHeaders). A json.RawMessage is its text.
use trae_api.Prelude.{
  String, ◌==◌, string_eq, Bool, true, false, ◌||◌, Option, none, some, List, [], ◌∷◌, ◌≡◌, refl,
  inl, inr, if◌then◌else◌, Assoc, insert, lookup, delete, lookup-insert, lookup-delete, Bool-cases,
  text_eq, text_eq_iff, ap, ◌∙◌, subst, Option-cases,
}
use trae_api.Chat.History.{has}

-- What jsonFields gives for an openai.Error with a message and a type; none is an error of encoding/json.
pub record ErrorFields : Type 0 where
  pub json_fields : String → String → Option (Assoc String String)

unfoldable pub drop : List String → Assoc String String → Assoc String String
drop [] fields = fields
drop (k ∷ ks) fields = drop ks (delete k fields)

abbrev internal : List String
internal = "StatusCode" ∷ "Request" ∷ "Response" ∷ "param" ∷ []

-- The members of "error".
unfoldable pub error_members :
    ⦃sdk : ErrorFields⦄ → String → String → Bool → Option (Assoc String String)
unfolding drop
error_members ⦃sdk⦄ message kind include_code = elim (sdk.json_fields message kind) [
  | none ↦ none
  | some fields ↦
      let rest = drop internal fields in
      some (if include_code then insert "code" "null" rest else drop ("code" ∷ []) rest)
]

-- strings.ToLower and strings.Contains
pub record Words : Type 0 where
  pub lower : String → String
  pub contains : String → String → Bool

abbrev is_sensitive : ⦃words : Words⦄ → String → Bool
is_sensitive ⦃words⦄ k =
    let lower = words.lower k in
    words.contains lower "token"
    || words.contains lower "authorization"
    || words.contains lower "cookie"
    || words.contains lower "api-key"

unfoldable pub debug_headers :
    ⦃words : Words⦄ → Assoc String (List String) → Assoc String (List String)
debug_headers [] = []
debug_headers ((k, v) ∷ h) = (k, if is_sensitive k then "<redacted>" ∷ [] else v) ∷ debug_headers h

-- Of a header with a sensitive name only the mark is left, and any other is as it was.
pub debug_headers-lookup :
    ⦃words : Words⦄ (k : String) (h : Assoc String (List String))
    → lookup k (debug_headers h) ≡ (
        if is_sensitive k
        then elim (lookup k h) as (λ _. Option (List String)) [
          | none ↦ none
          | some v ↦ some ("<redacted>" ∷ [])
        ]
        else lookup k h)
unfolding debug_headers lookup
debug_headers-lookup ⦃words⦄ k [] = elim (Bool-cases (is_sensitive k)) [
  | inl e ↦ rw e refl
  | inr e ↦ rw e refl
]
debug_headers-lookup ⦃words⦄ k ((j, v) ∷ h) = elim (Bool-cases (j == k)) [
  | inl e ↦
      let q : is_sensitive j ≡ is_sensitive k = ap (λ z. is_sensitive z) ((text_eq_iff j k).0 e) in
      rw (e) (rw (q) (elim (Bool-cases (is_sensitive k)) [ inl s ↦ rw s refl | inr s ↦ rw s refl ]))
  | inr e ↦ rw (e) (debug_headers-lookup k h)
]

drop-lookup :
    (k : String) (ks : List String) (fields : Assoc String String)
    → lookup k (drop ks fields) ≡ (if has k ks then none else lookup k fields)
unfolding drop has
drop-lookup k [] fields = refl
drop-lookup k (x ∷ ks) fields =
    drop-lookup k ks (delete x fields)
    ∙ (rw (lookup-delete x k fields) (elim (Bool-cases (x == k)) [
      | inl e ↦ rw (e) (elim (Bool-cases (has k ks)) [ inl h ↦ rw h refl | inr h ↦ rw h refl ])
      | inr e ↦ rw (e) refl
    ]))

-- The members of the error that tell the client something: nothing of the request, the response or the
-- status of the upstream, and a code that is null or not there.
pub record IsPlain (include_code : Bool) (fields : Assoc String String) : Type 0 where
  pub status : lookup "StatusCode" fields ≡ none
  pub request : lookup "Request" fields ≡ none
  pub response : lookup "Response" fields ≡ none
  pub param : lookup "param" fields ≡ none
  pub code : lookup "code" fields ≡ (if include_code then some "null" else none)

gone :
    (k : String) (fields : Assoc String String)
    → has k internal ≡ true
    → lookup k (drop internal fields) ≡ none
gone k fields h = drop-lookup k internal fields ∙ rw (h) refl

code_member :
    (b : Bool) (fields : Assoc String String)
    → lookup "code" (
        if b
        then insert "code" "null" (drop internal fields)
        else drop ("code" ∷ []) (drop internal fields))
      ≡ (if b then some "null" else none)
unfolding has text_eq
code_member true fields = rw (lookup-insert "code" "code" "null" (drop internal fields)) refl
code_member false fields = rw (drop-lookup "code" ("code" ∷ []) (drop internal fields)) refl

plain_key :
    (k : String) (b : Bool) (fields : Assoc String String)
    → ("code" == k) ≡ false
    → has k internal ≡ true
    → lookup k (
        if b
        then insert "code" "null" (drop internal fields)
        else drop ("code" ∷ []) (drop internal fields))
      ≡ none
unfolding has
plain_key k true fields n h =
    rw (lookup-insert "code" k "null" (drop internal fields)) (rw (n) (gone k fields h))
plain_key k false fields n h =
    rw (drop-lookup k ("code" ∷ []) (drop internal fields)) (rw (n) (gone k fields h))

with_code :
    (b : Bool) (fields : Assoc String String)
    → IsPlain b (
        if b
        then insert "code" "null" (drop internal fields)
        else drop ("code" ∷ []) (drop internal fields))
unfolding has text_eq
with_code b fields = record {
  status = plain_key "StatusCode" b fields refl refl;
  request = plain_key "Request" b fields refl refl;
  response = plain_key "Response" b fields refl refl;
  param = plain_key "param" b fields refl refl;
  code = code_member b fields;
}

pub error_members-IsPlain :
    ⦃sdk : ErrorFields⦄ (message kind : String) (include_code : Bool) {fields : Assoc String String}
    → error_members message kind include_code ≡ some fields
    → IsPlain include_code fields
unfolding error_members
error_members-IsPlain ⦃sdk⦄ message kind include_code h =
    elim (Option-cases (sdk.json_fields message kind)) [
      | inl e ↦ absurd (let g = rw (e, error_members) at h in cc)
      | inr (fs, e) ↦
          let g : some _ ≡ some _ = rw (e, error_members) at h in
          let q : _ ≡ _ = cc in subst (IsPlain include_code) q (with_code include_code fs)
    ]
