-- ===== src/Json.antt =====
-- JSON values as encoding/json decodes them into `any`, and the helpers of models.go that read
-- them (apiObjectValue, apiFirstString, field, records, positiveInt).
--
-- The codec itself is Go's encoding/json, strconv and strings: an argument of what uses it.
use trae_api.Prelude.{
  ℕ, ◌^◌, String, ◌==◌, string_eq, Bool, true, false, not, ◌&&◌, ◌||◌, Option, none, some, List, [],
  ◌∷◌, ltb, eqb, if◌then◌else◌, or_else,
}

-- A finite float64: its sign, the whole part of its magnitude, and the rest in units of 2^-1074,
-- of which every float64 is a multiple.
pub record Number : Type 0 where
  pub negative : Bool
  pub whole : ℕ
  pub fraction : ℕ

-- v > 0 and v < 0
unfoldable pub is_positive : Number → Bool
is_positive n = not n.negative && (ltb 0 n.whole || ltb 0 n.fraction)

unfoldable pub is_negative : Number → Bool
is_negative n = n.negative && (ltb 0 n.whole || ltb 0 n.fraction)

-- v > limit, at a limit that is a natural number
unfoldable pub exceeds : Number → ℕ → Bool
exceeds n limit = not n.negative && (ltb limit n.whole || (eqb n.whole limit && ltb 0 n.fraction))

mutual
  pub data Value : Type 0 where
    null : Value
    bool : Bool → Value
    number : Number → Value
    text : String → Value
    array : Items → Value
    object : Members → Value

  pub data Items : Type 0 where
    nil : Items
    cons : Value → Items → Items

  pub data Members : Type 0 where
    end : Members
    member : String → Value → Members → Members

pub record Codec : Type 0 where
  -- json.Unmarshal of a text into an `any`; `none` is an error
  pub unmarshal : String → Option Value
  -- json.Valid
  pub valid : String → Bool
  -- jsonText: json.Marshal
  pub marshal : Value → String
  -- strconv.FormatFloat(v, 'f', -1, 64)
  pub format_float : Number → String
  -- strings.ToLower
  pub to_lower : String → String
  -- json.Unmarshal into struct { type; function struct { name } } and []struct { type; text }
  pub named_choice : String → Option (String × String)
  pub parts : String → Option (List (String × String))

abbrev pub elements : Items → List Value
elements nil = []
elements (cons v vs) = v ∷ elements vs

-- v, ok := m[k]
unfoldable pub member? : Members → String → Option Value
member? end k = none
member? (member j v m) k = if j == k then some v else member? m k

-- m[k], where m may be the nil map: nil, and JSON null, is `null`
unfoldable pub at_key : Option Members → String → Value
unfolding member?
at_key none k = null
at_key (some m) k = or_else (member? m k) null

unfoldable pub is_nil : Value → Bool
is_nil null = true
is_nil _ = false

module _ ⦃go : Codec⦄ where
  -- `none` is the nil map
  unfoldable pub object_value : Value → Option Members
  object_value (object m) = some m
  object_value (text s) = elim (go.unmarshal s) [ some (object m) ↦ some m | _ ↦ none ]
  object_value _ = none

  unfoldable pub first_string : Option Members → List String → String
  first_string m [] = ""
  first_string m (k ∷ ks) =
      let rest = first_string m ks in
      elim (at_key m k) [
        | text s ↦ if s == "" then rest else s
        | number n ↦ go.format_float n
        | _ ↦ rest
      ]

  -- field: the key itself, or the key of the "data" object
  unfoldable pub field : Members → String → Value
  unfolding member? at_key object_value
  field m k = elim (member? m k) [
    | some v ↦ v
    | none ↦ at_key (object_value (at_key (some m) "data")) k
  ]

  unfoldable pub pick_objects : List Value → List Members
  unfolding object_value
  pick_objects [] = []
  pick_objects (x ∷ xs) =
      let rest = pick_objects xs in elim (object_value x) [ some m ↦ m ∷ rest | none ↦ rest ]

  unfoldable pub records : Value → List Members
  unfolding pick_objects
  records (array xs) = pick_objects (elements xs)
  records _ = []

-- positiveInt
unfoldable pub positive_int : Value → ℕ
unfolding is_positive
positive_int (number n) = if is_positive n && ltb n.whole (2 ^ 30) then n.whole else 0
positive_int _ = 0
