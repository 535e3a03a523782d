-- ===== src/Upstream/Texts.antt =====
-- The text and the reasoning of the completion are what was streamed of them.
use trae_api.Prelude.{String, ◌==◌, string_eq, true, text_eq_iff, List, ◌∷◌, ◌≡◌, <>-empty, arith}
use trae_api.Chat.{Completion}
use trae_api.Upstream.{Delta, blank}
use trae_api.Upstream.View.{all_text, all_reasoning}
use trae_api.Upstream.Snapshot.{merge_snapshot, merge_snapshot-grows}

pub record Streamed (c : Completion) (ds : List Delta) : Type 0 where
  pub text : c.message.content ≡ all_text ds
  pub reasoning : c.reasoning ≡ all_reasoning ds

-- A delta with neither text nor reasoning changes nothing.
pub Streamed-silent :
    {c : Completion} {ds : List Delta} (d : Delta)
    → d.text ≡ ""
    → d.reasoning ≡ ""
    → Streamed c ds
    → Streamed c (d ∷ ds)
Streamed-silent {ds} d p q h = ground (arith, <>-empty (all_text ds), <>-empty (all_reasoning ds))

abbrev pub with_content : Completion → String → Completion
with_content c s = record c { message = record c.message { content = s } }

abbrev pub with_reasoning : Completion → String → Completion
with_reasoning c s = record c { reasoning = s }

module _ {c : Completion} {ds : List Delta} (s : String) (h : Streamed c ds) where
  abbrev text_part : String × String
  text_part = merge_snapshot c.message.content s

  abbrev reasoning_part : String × String
  reasoning_part = merge_snapshot c.reasoning s

  pub Streamed-text :
      Streamed (with_content c text_part.0) (record blank { text = text_part.1 } ∷ ds)
  Streamed-text =
      ground (arith, merge_snapshot-grows c.message.content s, <>-empty (all_reasoning ds))

  -- Where nothing is added, nothing has to be sent.
  pub Streamed-no_text : (text_part.1 == "") ≡ true → Streamed (with_content c text_part.0) ds
  Streamed-no_text e = ground (
    arith,
    merge_snapshot-grows c.message.content s,
    text_eq_iff text_part.1 "",
    <>-empty c.message.content,
  )

  pub Streamed-reasoning :
      Streamed
        (with_reasoning c reasoning_part.0)
        (record blank { reasoning = reasoning_part.1 } ∷ ds)
  Streamed-reasoning = ground (arith, merge_snapshot-grows c.reasoning s, <>-empty (all_text ds))

  pub Streamed-no_reasoning :
      (reasoning_part.1 == "") ≡ true → Streamed (with_reasoning c reasoning_part.0) ds
  Streamed-no_reasoning e = ground (
    arith,
    merge_snapshot-grows c.reasoning s,
    text_eq_iff reasoning_part.1 "",
    <>-empty c.reasoning,
  )
