-- ===== src/Checker/Inspect/Groups.antt =====
-- tools/checker/main.go inspectSourcesWithExports: the groups of files by package.
use trae_api.Prelude.{
  String, ◌==◌, string_eq, some, List, [], ◌∷◌, ◌++◌, Assoc, insert, lookup, ◌≡◌, refl, inl, inr,
  ◌⊎◌, or_else, Bool-cases,
}
use trae_api.Checker.Inspect.{File}

-- `x` is in the list.
pub data In {A : Type 0} (x : A) : List A → Type 0 where
  top : {xs : List A} → In x (x ∷ xs)
  below : {y : A} {xs : List A} → In x xs → In x (y ∷ xs)

pub In-append_right : {A : Type 0} {x : A} (xs ys : List A) → In x ys → In x (xs ++ ys)
In-append_right [] ys h = h
In-append_right (y ∷ xs) ys h = below (In-append_right xs ys h)

pub In-append_left : {A : Type 0} {x : A} (xs ys : List A) → In x xs → In x (xs ++ ys)
In-append_left [] ys h = elim h [ ]
In-append_left (x ∷ xs) ys top = top
In-append_left (y ∷ xs) ys (below h) = below (In-append_left xs ys h)

-- `f` is a file of one of the groups.
abbrev pub InGroup : File → Assoc String (List File) → Type 0
InGroup f [] = ⊥
InGroup f ((key, files) ∷ groups) = In f files ⊎ InGroup f groups

pub InGroup-insert_new :
    (f : File) (key : String) (files : List File) (groups : Assoc String (List File))
    → In f files
    → InGroup f (insert key files groups)
unfolding insert
InGroup-insert_new f key files [] h = inl h
InGroup-insert_new f key files ((k, old) ∷ groups) h = elim (Bool-cases (k == key)) [
  | inl e ↦ rw (e, insert) (inl h)
  | inr e ↦ rw (e, insert) (inr (InGroup-insert_new f key files groups h))
]

InGroup-insert_old :
    (f : File) (key : String) (new : List File) (groups : Assoc String (List File))
    → ((old : List File) → lookup key groups ≡ some old → In f old → In f new)
    → InGroup f groups
    → InGroup f (insert key new groups)
unfolding insert lookup
InGroup-insert_old f key new [] keep h = absurd h
InGroup-insert_old f key new ((k, old) ∷ groups) keep h = elim (Bool-cases (k == key)) [
  | inl e ↦ rw (e) (elim h [ inl i ↦ inl (keep old (rw (e) refl) i) | inr i ↦ inr i ])
  | inr e ↦ rw (e) (elim h [
    | inl i ↦ inl i
    | inr i ↦ inr (InGroup-insert_old f key new groups (λ o q. keep o (rw (e) q)) i)
  ])
]

-- groups[key] = append(groups[key], g) keeps the files of the groups.
pub InGroup-add :
    (f g : File) (key : String) (groups : Assoc String (List File))
    → InGroup f groups
    → InGroup f (insert key (or_else (lookup key groups) [] ++ g ∷ []) groups)
InGroup-add f g key groups =
    InGroup-insert_old f key _ groups (λ old e i. rw (e) (In-append_left old (g ∷ []) i))
