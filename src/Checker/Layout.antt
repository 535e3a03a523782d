-- ===== src/Checker/Layout.antt =====
-- tools/checker/main.go checkDefinition and checkLiteral: the findings about one struct definition and
-- about one literal with the literals that it holds.

pub mod Lines
use trae_api.Prelude.{
  ℕ, zero, suc, ◌+◌, String, ◌==◌, string_eq, nat_eq, Bool, true, false, not, ◌&&◌, ◌||◌, Option,
  none, some, List, [], ◌∷◌, ◌++◌, Assoc, if◌then◌else◌, ltb, eqb, length, any, is_some,
}
use trae_api.Checker.{
  Expr, absent, ident, star, index, index_list, selector, array_type, map_type, struct_type,
  composite, key_value, another, Fields, no_fields, field, Elements, no_elements, element, Finding,
  underlying, fields_of, struct_fields,
}

-- ast.IsExported
pub record Ast : Type 0 where
  pub is_exported : String → Bool

-- What go/types knows of the type of a literal.
pub data GoType : Type 0 where
  pointer : GoType → GoType
  -- a type whose Underlying is a *types.Struct
  structure : GoType
  no_structure : GoType

abbrev is_structure : GoType → Bool
is_structure structure = true
is_structure _ = false

-- A pointer is followed once.
abbrev pub is_struct_value : GoType → Bool
is_struct_value (pointer t) = is_structure t
is_struct_value t = is_structure t

-- The inspector, as it is for one file of one package: the name of the file, the types that the package declares and
-- the types of literals, by their numbers.
pub record Inspector : Type 0 where
  pub file : String
  pub types : Assoc String Expr
  pub type_info : ℕ → Option GoType

unfoldable pub report : String → ℕ → String → List Finding
report file line rule = record { file = file; line = line; rule = rule } ∷ []

abbrev report_if : Bool → String → ℕ → String → List Finding
report_if true file line rule = report file line rule
report_if false file line rule = []

-- fields[len(fields)-1].End()
abbrev pub last_field : ℕ → Fields → ℕ
last_field l no_fields = l
last_field l (field names type first last rest) = last_field last rest

unfoldable pub field_findings : String → ℕ → Fields → List Finding
unfolding report
field_findings file last_end no_fields = []
field_findings file last_end (field names type first last rest) =
    report_if (ltb 1 (length names)) file first "declare one struct field per line"
    ++ (report_if (eqb first last_end) file first "multiple struct fields on one line"
        ++ field_findings file last rest)

unfoldable pub check_definition : String → ℕ → Fields → ℕ → List Finding
unfolding report field_findings
check_definition file at no_fields closing = []
check_definition file at (field names type first last rest) closing =
    report_if (eqb at first || eqb (last_field last rest) closing) file at
      "nonempty struct definition must span field lines"
    ++ field_findings file 0 (field names type first last rest)

abbrev pub last_element : ℕ → Elements → ℕ
last_element l no_elements = l
last_element l (element e first last rest) = last_element last rest

unfoldable pub element_findings : String → ℕ → Elements → List Finding
unfolding report
element_findings file previous_end no_elements = []
element_findings file previous_end (element e first last rest) =
    report_if (eqb previous_end first) file first "multiple struct literal fields on one line"
    ++ element_findings file last rest

-- The lines of a literal of a struct.
unfoldable pub literal_findings : String → ℕ → Elements → ℕ → List Finding
unfolding report element_findings
literal_findings file lbrace no_elements rbrace = []
literal_findings file lbrace (element e first last rest) rbrace =
    report_if (eqb lbrace first || eqb rbrace (last_element last rest)) file lbrace
      "nonempty struct literal must use separate lines"
    ++ element_findings file 0 (element e first last rest)

-- Each element is a pair whose key is an exported name.
unfoldable pub all_keyed : ⦃go : Ast⦄ → Elements → Bool
all_keyed no_elements = true
all_keyed ⦃go⦄ (element (key_value (ident name) v) first last rest) =
    go.is_exported name && all_keyed rest
all_keyed (element e first last rest) = false

-- The type of the child at an index, by the type of the literal.
abbrev field_type : ℕ → Fields → Expr
field_type i no_fields = absent
field_type zero (field names type first last rest) = type
field_type (suc i) (field names type first last rest) = field_type i rest

abbrev child_type : Expr → ℕ → Expr
child_type (array_type elt) i = elt
child_type (map_type value) i = value
child_type (struct_type at fields closing) i = field_type i fields
child_type _ i = absent

-- The field with this name, the last one where there are several.
abbrev named_type : String → Expr → Fields → Expr
named_type key found no_fields = found
named_type key found (field names type first last rest) =
    named_type key (if any (λ name. name == key) names then type else found) rest

abbrev keyed_type : Option Fields → Expr → Expr → Expr
keyed_type (some fields) (ident name) found = named_type name found fields
keyed_type _ key found = found

-- if lit.Type != nil
abbrev type_or : Expr → Expr → Expr
type_or absent expected = expected
type_or t expected = t

abbrev is_selector : Expr → Bool
is_selector selector = true
is_selector _ = false

abbrev is_empty : Elements → Bool
is_empty no_elements = true
is_empty _ = false

-- Whether a literal is checked as one of a struct: as the type checker says, or else by its syntax.
unfoldable pub is_struct_literal : ⦃go : Ast⦄ → Option GoType → Expr → Elements → Bool
unfolding all_keyed
is_struct_literal (some t) under elts = is_struct_value t
is_struct_literal none under elts =
    is_some (fields_of under) || (is_selector under && (not (is_empty elts) && all_keyed elts))

-- The numbers of the literals that were checked, and the findings.
abbrev pub Checked : Type 0
Checked = List Finding × List ℕ

abbrev pub and_then : Checked → (List ℕ → Checked) → Checked
and_then c f = let d = f c.1 in (c.0 ++ d.0, d.1)

abbrev contains : ℕ → List ℕ → Bool
contains n seen = any (λ m. m == n) seen

-- A literal that was checked is passed over; else its own lines are checked, and then those of the
-- literals among its elements.
unfoldable mutual
  pub check_literal : ⦃go : Ast⦄ → Inspector → Expr → Expr → List ℕ → Checked
  check_literal i expected (composite id typ lbrace elts rbrace) seen =
      let type = type_or typ expected in
      let under = underlying i.types type in
      let own =
        if is_struct_literal (i.type_info id) under elts
        then literal_findings i.file lbrace elts rbrace
        else [] in
      let below = check_elements i under (struct_fields i.types type) 0 elts (id ∷ seen) in
      if contains id seen then ([], seen) else (own ++ below.0, below.1)
  check_literal i expected e seen = ([], seen)

  pub check_elements :
      ⦃go : Ast⦄ → Inspector → Expr → Option Fields → ℕ → Elements → List ℕ → Checked
  check_elements i under fields at no_elements seen = ([], seen)
  check_elements i under fields at (element (key_value k v) first last rest) seen =
      let child = keyed_type fields k (child_type under at) in
      and_then (check_literal i child v seen) (check_elements i under fields (at + 1) rest)
  check_elements i under fields at (element e first last rest) seen =
      and_then (check_literal i (child_type under at) e seen)
        (check_elements i under fields (at + 1) rest)
