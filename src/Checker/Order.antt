-- ===== src/Checker/Order.antt =====
-- tools/checker/main.go inspectSourcesWithExports: the order in which the findings are sorted.
use Prim.Native.Char.{code}
use Prim.Native.String.{String}
use trae_api.Prelude.{
  ℕ, ◌==◌, string_eq, Bool, true, false, not, ◌&&◌, ◌||◌, List, [], ◌∷◌, if◌then◌else◌, ltb, eqb,
}
use trae_api.Checker.{Finding}

abbrev codes : String → List ℕ
codes String.[] = []
codes (String.◌∷◌ c s) = code c ∷ codes s

-- `<` of Go on strings, which UTF-8 keeps in the order of the code points.
unfoldable pub list_less : List ℕ → List ℕ → Bool
list_less xs [] = false
list_less [] (y ∷ ys) = true
list_less (x ∷ xs) (y ∷ ys) = let rest = list_less xs ys in ltb x y || (eqb x y && rest)

unfoldable pub text_less : String → String → Bool
unfolding list_less
text_less s t = list_less (codes s) (codes t)

unfoldable pub finding_less : Finding → Finding → Bool
unfolding text_less
finding_less left right =
    if not (left.file == right.file)
    then text_less left.file right.file
    else ltb left.line right.line
