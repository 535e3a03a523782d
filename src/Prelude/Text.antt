-- ===== src/Prelude/Text.antt =====
-- Go strings as native texts: equality, concatenation, prefixes. `len` counts bytes, as Go does.
use Prim.Native.String.{String, ◌++◌ as append, len, slice}
use mathlib.Core.Path.{◌≡◌, refl, sym, ap, subst, ◌∙◌}
use mathlib.Core.Logic.{◌↔◌}
use mathlib.Core.Bool.{Bool, true, false}
use text.Mathlib.Text.{◌==◌ as str_eq, starts_with}
use text.Mathlib.TextEquality.{eq_iff as str_eq_iff, starts_with_iff}
use text.Mathlib.TextPositions.{
  slice-append_right, len-append as len-append_lem, starts_with-append,
}
use text.Mathlib.TextLemmas
use trae_api.Prelude.Tests.{Eq, if◌then◌else◌, leb}
use Prim.Native.Nat.{◌+◌, ◌-◌}

-- Shut, so that a test on a text stays one unknown in a proof.
unfoldable pub text_eq : String → String → Bool
text_eq s t = str_eq s t

pub text_eq_iff : (s t : String) → (text_eq s t ≡ true) ↔ (s ≡ t)
unfolding text_eq
text_eq_iff s t = str_eq_iff s t

pub text_eq_refl : (s : String) → text_eq s s ≡ true
text_eq_refl s = (text_eq_iff s s).1 refl

instance abbrev pub string_eq : Eq String
string_eq = record { test = text_eq; test_iff = text_eq_iff }

infixl 65 ◌<>◌
-- `+` on Go strings.
unfoldable pub ◌<>◌ : String → String → String
s <> t = append s t

pub <>-assoc : (a b c : String) → (a <> b) <> c ≡ a <> (b <> c)
unfolding ◌<>◌
<>-assoc a b c = TextLemmas.append_assoc a b c

pub <>-empty : (a : String) → a <> "" ≡ a
unfolding ◌<>◌
<>-empty a = TextLemmas.append-nil a

pub empty-<> : (a : String) → "" <> a ≡ a
unfolding ◌<>◌
empty-<> a = TextLemmas.nil-append a

pub len-<> : (a b : String) → len (a <> b) ≡ len a + len b
unfolding ◌<>◌
len-<> a b = len-append_lem a b

-- strings.HasPrefix
unfoldable pub has_prefix : String → String → Bool
has_prefix s p = starts_with s p

-- strings.TrimPrefix
unfoldable pub trim_prefix : String → String → String
unfolding has_prefix
trim_prefix s p = if has_prefix s p then slice s (len p) (len s) else s

pub has_prefix-<> : (p r : String) → has_prefix (p <> r) p ≡ true
unfolding has_prefix ◌<>◌
has_prefix-<> p r = starts_with-append p r

pub trim_prefix-<> : (p r : String) → trim_prefix (p <> r) p ≡ r
unfolding trim_prefix ◌<>◌
trim_prefix-<> p r = rw (starts_with-append p r) (rw (len-append_lem p r) (slice-append_right p r))

-- A text with a prefix is the prefix and what TrimPrefix leaves.
prefix_split : (s p : String) → has_prefix s p ≡ true → (r : String) × (p <> r ≡ s)
unfolding has_prefix ◌<>◌
prefix_split s p h = (starts_with_iff s p).0 h

pub trim_prefix_lem : (s p : String) → has_prefix s p ≡ true → s ≡ p <> trim_prefix s p
trim_prefix_lem s p h =
    let (r, e) = prefix_split s p h in
    subst (λ (t : String). t ≡ p <> trim_prefix t p) e (ap (λ t. p <> t) (sym (trim_prefix-<> p r)))

pub trim_prefix_self : (s : String) → trim_prefix s s ≡ ""
trim_prefix_self s = subst (λ (t : String). trim_prefix t s ≡ "") (<>-empty s) (trim_prefix-<> s "")

pub has_prefix_self : (s : String) → has_prefix s s ≡ true
has_prefix_self s = subst (λ (t : String). has_prefix t s ≡ true) (<>-empty s) (has_prefix-<> s "")

pub has_prefix_empty : (s : String) → has_prefix s "" ≡ true
has_prefix_empty s =
    subst (λ (t : String). has_prefix t "" ≡ true) (empty-<> s) (has_prefix-<> "" s)

-- `if a == "" { a = b }`
abbrev pub or_text : String → String → String
or_text a b = if text_eq a "" then b else a

empty_of_<> : (a b : String) → a <> b ≡ "" → (a ≡ "") × (b ≡ "")
unfolding ◌<>◌
empty_of_<> a b e = TextLemmas.append-eq-nil_iff.0 e

<>-cancel_left : (a b c : String) → a <> b ≡ a <> c → b ≡ c
unfolding ◌<>◌
<>-cancel_left a b c e = TextLemmas.append_cancel_left a b c e

-- A text that extends another and is a prefix of it adds nothing.
pub <>-empty_of_prefix : (a x : String) → has_prefix a (a <> x) ≡ true → a <> x ≡ a
<>-empty_of_prefix a x h =
    let (r, e) = prefix_split a (a <> x) h in
    let nothing : "" ≡ x <> r =
      <>-cancel_left a "" (x <> r) (<>-empty a ∙ sym e ∙ <>-assoc a x r) in
    rw ((empty_of_<> x r (sym nothing)).0) (<>-empty a)

pub <>-eq_left_of_empty : (a x : String) → a <> x ≡ "" → a <> x ≡ a
<>-eq_left_of_empty a x e = e ∙ sym (empty_of_<> a x e).0

-- strings.HasSuffix
unfoldable pub has_suffix : String → String → Bool
unfolding text_eq
has_suffix s p = if leb (len p) (len s) then text_eq (slice s (len s - len p) (len s)) p else false
