-- ===== src/Http/Body.antt =====
-- http.go: the body of a chat request before it is decoded (decodeBody). A json.RawMessage is its text.
--
-- What encoding/json makes of the body, and of the texts in it, is the record Raws.
use trae_api.Prelude.{
  String, ◌==◌, string_eq, Bool, false, not, ◌||◌, Option, none, some, Assoc, lookup,
}
use trae_api.Fault.{api, bad_request, Result, ok, err, ◌>>=◌, ◌>>◌, reject}

-- The first value that the decoder finds.
pub data First : Type 0 where
  -- http.MaxBytesError: more than 4 MiB
  too_large : First
  broken : First
  value : String → First

pub record Raws : Type 0 where
  -- json.Unmarshal into a map of raw messages; `some none` is the nil map
  pub members : String → Option (Option (Assoc String String))
  -- json.Unmarshal into struct { type }
  pub type_of : String → Option String

abbrev pub Body : Type 0
Body = String × Assoc String String

abbrev first_value : First → Result String
first_value too_large = err (api 413 "request body exceeds 4 MiB limit")
first_value broken = err (bad_request "invalid JSON request")
first_value (value text) = ok text

abbrev object_members : Option (Option (Assoc String String)) → Result (Assoc String String)
object_members (some (some raw)) = ok raw
object_members _ = err (bad_request "request must be a JSON object")

-- A key whose presence is an error, unless its text passes.
abbrev refuse : String → (String → Bool) → String → Assoc String String → Result (Unit {0})
refuse k passes detail raw = elim (lookup k raw) [
  | none ↦ ok tt
  | some text ↦ reject (not (passes text)) (bad_request detail)
]

abbrev empty_option : String → Bool
empty_option text = text == "null" || text == "{}"

module _ ⦃raws : Raws⦄ where
  abbrev is_text_format : String → Bool
  is_text_format text =
      text == "null" || (elim (raws.type_of text) [ none ↦ false | some kind ↦ kind == "text" ])

  -- `at_end` is whether the decoder is at io.EOF after the first value.
  unfoldable pub decode_body : First → Bool → Result Body
  decode_body first at_end = do
    body ← first_value first
    raw ← object_members (raws.members body)
    reject (not at_end) (bad_request "multiple JSON values")
    refuse "reasoning_effort" empty_option "reasoning_effort is unsupported by the IDE upstream" raw
    refuse "reasoning" empty_option "reasoning is unsupported by the IDE upstream" raw
    refuse "thinking" empty_option "thinking is unsupported by the IDE upstream" raw
    refuse "n" (λ text. text == "1") "only n=1 is supported" raw
    refuse "response_format" is_text_format "only text response_format is supported" raw
    ok (body, raw)
