-- ===== src/Tests/Layout.antt =====
-- A small repository that the checker passes.
use trae_api.Prelude.{
  String, ◌==◌, string_eq, text_eq, true, none, some, [], ◌∷◌, ◌≡◌, refl, ◌↔◌, if◌then◌else◌, Assoc,
  insert, lookup, arith, length,
}
use trae_api.Fault.{failure, ok, err}
use trae_api.Chat.History.{has}
use trae_api.Checker.{
  Expr, Fields, ident, star, struct_type, another, no_fields, field, no_elements, element, resolve,
  underlying,
}
use trae_api.Checker.Layout.{
  Ast, check_definition, literal_findings, check_literal, is_struct_literal,
}
use trae_api.Checker.Layout.Lines.{FieldsOnOwnLines, check_definition_iff}
use trae_api.Checker.Resolved.{Followed, underlying-Followed}
use trae_api.Checker.Inspect.{
  struct_node, literal_node, type_spec, File, Package, Toolchain, source_paths, add_types,
  inspect_files, inspect_nodes, main,
}
use trae_api.Checker.Inspect.Groups.{top, below}
use trae_api.Checker.Inspect.Passed.{main-passed}

-- type point struct { x int; y int } over the lines 3 to 6
abbrev fields : Fields
fields = field ("x" ∷ []) (ident "int") 4 4 (field ("y" ∷ []) (ident "int") 5 5 no_fields)

abbrev crowded : Fields
crowded = field ("x" ∷ []) (ident "int") 4 4 (field ("y" ∷ []) (ident "int") 4 4 no_fields)

check_definition_iff_example :
    (check_definition "a.go" 3 fields 6 ≡ []) ↔ FieldsOnOwnLines 3 fields 6
check_definition_iff_example =
    check_definition_iff "a.go" 3 ("x" ∷ []) (ident "int") 4 4
      (field ("y" ∷ []) (ident "int") 5 5 no_fields) 6 (omega arith)
      (omega arith, omega arith, omega arith)

reports : length (check_definition "a.go" 3 crowded 6) ≡ 1
unfolding check_definition
reports = refl

abbrev types : Assoc String Expr
types = ("pair", star (ident "point")) ∷ ("point", struct_type 3 fields 6) ∷ []

underlying-Followed_example : Followed types 10 (ident "pair") (underlying types (ident "pair"))
underlying-Followed_example = underlying-Followed types (ident "pair")

follows : underlying types (ident "pair") ≡ struct_type 3 fields 6
unfolding underlying lookup text_eq
follows = refl

abbrev source : File
source = record {
  path = "a.go";
  package_name = "a";
  nodes =
      type_spec "point" (struct_type 3 fields 6)
      ∷ struct_node 3 fields 6
      ∷ literal_node 0 (ident "point") 8 (element another 9 9 no_elements) 10
      ∷ [];
}

instance abbrev go : Toolchain
go = record {
  join = λ d f. f;
  dir = λ p. ".";
  parse_file = λ p. if p == "a.go" then ok source else err (failure "no such file");
  check = λ exports key files. record { type_info = λ n. none; first_error = none };
  sort_slice = λ less fs. fs;
  sort_strings = λ ss. ss;
  relative = λ root p. some p;
  itoa = λ n. "0";
}

instance abbrev ast : Ast
ast = record { is_exported = λ s. true }

abbrev listed : Package
listed = record { dir = "."; go_files = "a.go" ∷ []; test_go_files = []; x_test_go_files = [] }

passes : (main (ok (listed ∷ [])) (ok []) (ok ".")).code ≡ 0
unfolding main underlying resolve lookup insert text_eq has add_types check_definition check_literal
    inspect_nodes inspect_files literal_findings is_struct_literal
passes = refl

parses : go.parse_file "a.go" ≡ ok source
unfolding text_eq
parses = refl

lists : source_paths (ok (listed ∷ [])) ≡ ok ("a.go" ∷ [])
unfolding source_paths
lists = refl

main-passed_example : FieldsOnOwnLines 3 fields 6
main-passed_example =
    main-passed (ok (listed ∷ [])) (ok []) (ok ".") ("a.go" ∷ []) "a.go" source 3 ("x" ∷ [])
      (ident "int") 4 4 (field ("y" ∷ []) (ident "int") 5 5 no_fields) 6 (λ found. refl) passes
      lists top parses (below top) (omega arith) (omega arith, omega arith, omega arith)
