-- ===== src/Checker/Layout/Lines.antt =====
-- tools/checker/main.go: which struct definitions and literals pass the checker.
use trae_api.Prelude.{
  ℕ, ◌≤◌, ◌<◌, String, Bool, true, false, ◌||◌, List, [], ◌∷◌, ◌++◌, ◌≡◌, refl, ◌↔◌, ltb, eqb,
  length, arith,
}
use trae_api.Checker.{Expr, Fields, no_fields, field, Elements, no_elements, element}
use trae_api.Checker.Layout.{
  report, report_if, last_field, field_findings, check_definition, last_element, element_findings,
  literal_findings,
}

-- The positions of a list of fields, between a line before it and one after it, as a parser gives them.
abbrev pub FieldsInOrder : ℕ → Fields → ℕ → Type 0
FieldsInOrder at no_fields closing = at ≤ closing
FieldsInOrder at (field names type first last rest) closing =
    (at ≤ first) × (first ≤ last) × FieldsInOrder last rest closing

-- No two of: the line before, a field, the line after, share a line, and each field has one name at
-- most.
abbrev pub FieldsOnOwnLines : ℕ → Fields → ℕ → Type 0
FieldsOnOwnLines at no_fields closing = at < closing
FieldsOnOwnLines at (field names type first last rest) closing =
    (at < first) × (length names ≤ 1) × FieldsOnOwnLines last rest closing

pub append_nil : {A : Type 0} (xs ys : List A) → xs ++ ys ≡ [] → (xs ≡ []) × (ys ≡ [])
append_nil [] ys h = (refl, h)
append_nil (x ∷ xs) ys h = absurd (cc)

report_if_nil :
    (test : Bool) (file : String) (line : ℕ) (rule : String)
    → report_if test file line rule ≡ []
    → test ≡ false
unfolding report
report_if_nil true file line rule h = absurd (cc)
report_if_nil false file line rule h = refl

apart : (a b : ℕ) → a ≤ b → eqb b a ≡ false → a < b
apart a b h e = ground arith

both_apart : (a f l c : ℕ) → a ≤ f → l ≤ c → (eqb a f || eqb l c) ≡ false → (a < f) × (l < c)
both_apart a f l c h i e = ground arith

none_beside : (a f l c : ℕ) → a < f → l < c → (eqb a f || eqb l c) ≡ false
none_beside a f l c h i = ground arith

apart' : (a b : ℕ) → a ≤ b → eqb a b ≡ false → a < b
apart' a b h e = ground arith

both_apart' : (a f l c : ℕ) → a ≤ f → l ≤ c → (eqb a f || eqb c l) ≡ false → (a < f) × (l < c)
both_apart' a f l c h i e = ground arith

none_beside' : (a f l c : ℕ) → a < f → l < c → (eqb a f || eqb c l) ≡ false
none_beside' a f l c h i = ground arith

one_at_most : (n : ℕ) → ltb 1 n ≡ false → n ≤ 1
one_at_most n e = ground arith

field_findings→own :
    (file : String) (at : ℕ) (fields : Fields) (closing : ℕ)
    → FieldsInOrder at fields closing
    → field_findings file at fields ≡ []
    → last_field at fields < closing
    → FieldsOnOwnLines at fields closing
unfolding field_findings
field_findings→own file at no_fields closing o h l = l
field_findings→own file at (field names type first last rest) closing o h l =
    let (x, g) = append_nil _ _ h in
    let (y, z) = append_nil _ _ g in
    let n = report_if_nil _ file first _ x in
    let m = report_if_nil _ file first _ y in
    (apart at first o.0 m, one_at_most _ n, field_findings→own file last rest closing o.2 z l)

own→field_findings :
    (file : String) (at : ℕ) (fields : Fields) (closing : ℕ)
    → FieldsInOrder at fields closing
    → FieldsOnOwnLines at fields closing
    → (field_findings file at fields ≡ []) × (last_field at fields < closing)
unfolding field_findings
own→field_findings file at no_fields closing o w = (refl, w)
own→field_findings file at (field names type first last rest) closing o w =
    let (x, y) = own→field_findings file last rest closing o.2 w.2 in
    let n : ltb 1 (length names) ≡ false = ground arith in
    let m : eqb first at ≡ false = ground arith in (rw (n) (rw (m) x), y)

last_field-le :
    (at : ℕ) (fields : Fields) (closing : ℕ)
    → FieldsInOrder at fields closing
    → last_field at fields ≤ closing
last_field-le at no_fields closing o = o
last_field-le at (field names type first last rest) closing o = last_field-le last rest closing o.2

-- A struct definition that has fields, with its positions in order, passes the checker exactly if the
-- struct keyword, each field and the closing brace stand on lines of their own and each field declares
-- one name.
pub check_definition_iff :
    (file : String) (at : ℕ) (names : List String) (type : Expr) (first last : ℕ) (rest : Fields)
    (closing : ℕ)
    → 0 < at
    → FieldsInOrder at (field names type first last rest) closing
    → (check_definition file at (field names type first last rest) closing ≡ [])
      ↔ FieldsOnOwnLines at (field names type first last rest) closing
unfolding check_definition
check_definition_iff file at names type first last rest closing pos o =
    let all : Fields = field names type first last rest in
    let begun : FieldsInOrder 0 all closing = (omega arith, o.1, o.2) in
    (
      λ h.
          let (x, g) = append_nil _ _ h in
          let (p, q) =
            both_apart at first (last_field last rest) closing o.0
              (last_field-le last rest closing o.2) (report_if_nil _ file at _ x) in
          let own : FieldsOnOwnLines 0 all closing =
            field_findings→own file 0 all closing begun g q in
          (p, own.1, own.2),
      λ w.
          let (x, y) = own→field_findings file 0 all closing begun (omega arith, w.1, w.2) in
          rw (none_beside at first (last_field last rest) closing w.0 y) x,
    )

-- The same for the elements of a literal.
abbrev pub ElementsInOrder : ℕ → Elements → ℕ → Type 0
ElementsInOrder at no_elements closing = at ≤ closing
ElementsInOrder at (element e first last rest) closing =
    (at ≤ first) × (first ≤ last) × ElementsInOrder last rest closing

abbrev pub ElementsOnOwnLines : ℕ → Elements → ℕ → Type 0
ElementsOnOwnLines at no_elements closing = at < closing
ElementsOnOwnLines at (element e first last rest) closing =
    (at < first) × ElementsOnOwnLines last rest closing

element_findings→own :
    (file : String) (at : ℕ) (elts : Elements) (closing : ℕ)
    → ElementsInOrder at elts closing
    → element_findings file at elts ≡ []
    → last_element at elts < closing
    → ElementsOnOwnLines at elts closing
unfolding element_findings
element_findings→own file at no_elements closing o h l = l
element_findings→own file at (element e first last rest) closing o h l =
    let (x, y) = append_nil _ _ h in
    (
      apart' at first o.0 (report_if_nil _ file first _ x),
      element_findings→own file last rest closing o.2 y l,
    )

own→element_findings :
    (file : String) (at : ℕ) (elts : Elements) (closing : ℕ)
    → ElementsInOrder at elts closing
    → ElementsOnOwnLines at elts closing
    → (element_findings file at elts ≡ []) × (last_element at elts < closing)
unfolding element_findings
own→element_findings file at no_elements closing o w = (refl, w)
own→element_findings file at (element e first last rest) closing o w =
    let (x, y) = own→element_findings file last rest closing o.2 w.1 in
    let m : eqb at first ≡ false = ground arith in (rw (m) x, y)

last_element-le :
    (at : ℕ) (elts : Elements) (closing : ℕ)
    → ElementsInOrder at elts closing
    → last_element at elts ≤ closing
last_element-le at no_elements closing o = o
last_element-le at (element e first last rest) closing o = last_element-le last rest closing o.2

-- The lines of a struct literal that has elements, in a file that the parser has read, pass the checker
-- exactly if the opening brace, each element and the closing brace stand on lines of their own.
pub literal_findings_iff :
    (file : String) (at : ℕ) (e : Expr) (first last : ℕ) (rest : Elements) (closing : ℕ)
    → 0 < at
    → ElementsInOrder at (element e first last rest) closing
    → (literal_findings file at (element e first last rest) closing ≡ [])
      ↔ ElementsOnOwnLines at (element e first last rest) closing
unfolding literal_findings
literal_findings_iff file at e first last rest closing pos o =
    let all : Elements = element e first last rest in
    let begun : ElementsInOrder 0 all closing = (omega arith, o.1, o.2) in
    (
      λ h.
          let (x, g) = append_nil _ _ h in
          let (p, q) =
            both_apart' at first (last_element last rest) closing o.0
              (last_element-le last rest closing o.2) (report_if_nil _ file at _ x) in
          let own : ElementsOnOwnLines 0 all closing =
            element_findings→own file 0 all closing begun g q in
          (p, own.1),
      λ w.
          let (x, y) = own→element_findings file 0 all closing begun (omega arith, w.1) in
          rw (none_beside' at first (last_element last rest) closing w.0 y) x,
    )
