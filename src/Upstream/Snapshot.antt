-- ===== src/Upstream/Snapshot.antt =====
-- upstream.go mergeSnapshot: a text that arrives as cumulative snapshots or as fragments.
use trae_api.Prelude.{
  String, ◌<>◌, ◌==◌, string_eq, ◌||◌, has_prefix, trim_prefix, if◌then◌else◌, ◌≡◌, arith,
  trim_prefix_lem, <>-empty, <>-assoc, <>-eq_left_of_empty, <>-empty_of_prefix, has_prefix-<>,
  text_eq_iff, List, [], ◌∷◌, ap, sym, ◌∙◌,
}

-- The new text, and what it adds to the old one.
unfoldable pub merge_snapshot : String → String → String × String
merge_snapshot old new =
    if new == "" || has_prefix old new
    then (old, "")
    else if has_prefix new old
    then (new, trim_prefix new old)
    else (old <> new, new)

-- The text grows by exactly what is streamed of it.
pub merge_snapshot-grows :
    (old new : String) → (merge_snapshot old new).0 ≡ old <> (merge_snapshot old new).1
unfolding merge_snapshot
merge_snapshot-grows old new = ground (arith, <>-empty old, trim_prefix_lem new old)

abbrev pub cumulative : String → List String → List String
cumulative old [] = []
cumulative old (x ∷ xs) = (old <> x) ∷ cumulative (old <> x) xs

abbrev pub concat : List String → String
concat [] = ""
concat (x ∷ xs) = x <> concat xs

-- The text after a row of snapshots.
abbrev pub merge_all : String → List String → String
merge_all old [] = old
merge_all old (x ∷ xs) = merge_all (merge_snapshot old x).0 xs

merge_snapshot-cumulative : (old x : String) → (merge_snapshot old (old <> x)).0 ≡ old <> x
unfolding merge_snapshot
merge_snapshot-cumulative old x = ground (
  arith,
  has_prefix-<> old x,
  text_eq_iff (old <> x) "",
  <>-eq_left_of_empty old x,
  <>-empty_of_prefix old x,
)

-- Snapshots that each repeat the text so far add up to their last one, whatever they add to it.
pub merge_all-cumulative :
    (old : String) (xs : List String) → merge_all old (cumulative old xs) ≡ old <> concat xs
merge_all-cumulative old [] = sym (<>-empty old)
merge_all-cumulative old (x ∷ xs) =
    ap (λ t. merge_all t (cumulative (old <> x) xs)) (merge_snapshot-cumulative old x)
    ∙ merge_all-cumulative (old <> x) xs
    ∙ <>-assoc old x (concat xs)
