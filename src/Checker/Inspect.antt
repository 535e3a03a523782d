-- ===== src/Checker/Inspect.antt =====
-- tools/checker/main.go: the checker on a whole repository (sourcePaths, inspectSourcesWithExports, main).
--
-- What go list, the parser and the type checker give is an argument. The groups of files are taken in the order of
-- their first file, where Go takes them in any order; the findings are sorted afterwards.
pub mod Groups
pub mod Passed
use trae_api.Prelude.{
  ℕ, ◌+◌, String, ◌==◌, ◌<>◌, string_eq, Bool, true, false, not, Option, none, some, List, [], ◌∷◌,
  ◌++◌, Assoc, insert, lookup, if◌then◌else◌, ltb, length, or_else, map,
}
use trae_api.Fault.{Fault, Result, ok, err, ◌>>=◌, ◌>>◌}
use trae_api.Chat.History.{has}
use trae_api.Checker.{Expr, Fields, Elements, composite, Finding}
use trae_api.Checker.Order.{finding_less}
use trae_api.Checker.Layout.{
  Ast, GoType, Inspector, check_definition, check_literal, Checked, and_then,
}

-- What ast.Inspect meets in a file, in its order.
pub data Node : Type 0 where
  struct_node : ℕ → Fields → ℕ → Node
  literal_node : ℕ → Expr → ℕ → Elements → ℕ → Node
  type_spec : String → Expr → Node
  other_node : Node

pub record File : Type 0 where
  pub path : String
  pub package_name : String
  pub nodes : List Node

-- A package, as go list describes it.
pub record Package : Type 0 where
  pub dir : String
  pub go_files : List String
  pub test_go_files : List String
  pub x_test_go_files : List String

-- What the type checker gives for a group of files: the types of literals, and its first error.
pub record Typed : Type 0 where
  pub type_info : ℕ → Option GoType
  pub first_error : Option Fault

pub record Toolchain : Type 0 where
  -- filepath.Join of two parts, filepath.Dir
  pub join : String → String → String
  pub dir : String → String
  -- parser.ParseFile
  pub parse_file : String → Result File
  -- config.Check, with the exports of the packages that are imported
  pub check : Assoc String String → String → List File → Typed
  -- sort.Slice, sort.Strings
  pub sort_slice : (Finding → Finding → Bool) → List Finding → List Finding
  pub sort_strings : List String → List String
  -- filepath.Rel, where the result is local
  pub relative : String → String → Option String
  pub itoa : ℕ → String

-- The loops of sourcePaths over the packages and their files.
unfoldable pub add_paths : (String → String) → List String → List String → List String
unfolding has
add_paths join [] paths = paths
add_paths join (name ∷ names) paths =
    add_paths join names (if has (join name) paths then paths else paths ++ join name ∷ [])

unfoldable pub collect_paths : ⦃go : Toolchain⦄ → List Package → List String → List String
unfolding add_paths
collect_paths [] paths = paths
collect_paths ⦃go⦄ (p ∷ packages) paths =
    let join = go.join p.dir in
    collect_paths packages (
      add_paths join p.x_test_go_files
        (add_paths join p.test_go_files (add_paths join p.go_files paths)))

unfoldable pub source_paths : ⦃go : Toolchain⦄ → Result (List Package) → Result (List String)
unfolding collect_paths
source_paths ⦃go⦄ listed = do packages ← listed; ok (go.sort_strings (collect_paths packages []))

unfoldable pub add_types : List Node → Assoc String Expr → Assoc String Expr
add_types [] types = types
add_types (type_spec name e ∷ nodes) types = add_types nodes (insert name e types)
add_types (node ∷ nodes) types = add_types nodes types

unfoldable pub declared_types : List File → Assoc String Expr → Assoc String Expr
unfolding add_types
declared_types [] types = types
declared_types (f ∷ files) types = declared_types files (add_types f.nodes types)

-- What main writes, and the code with which it exits.
pub record Outcome : Type 0 where
  pub code : ℕ
  pub written : List String

-- The loop of packageExports.
unfoldable pub add_exports : List (String × String) → Assoc String String → Assoc String String
add_exports [] exports = exports
add_exports ((path, export) ∷ packages) exports =
    add_exports packages (if export == "" then exports else insert path export exports)

module _ ⦃go : Toolchain⦄ ⦃ast : Ast⦄ where
  abbrev pub inspect_node : Inspector → Node → List ℕ → Checked
  inspect_node i (struct_node at fields closing) seen =
      (check_definition i.file at fields closing, seen)
  inspect_node i (literal_node id typ lbrace elts rbrace) seen =
      check_literal i typ (composite id typ lbrace elts rbrace) seen
  inspect_node i _ seen = ([], seen)

  unfoldable pub inspect_nodes : Inspector → List Node → List ℕ → Checked
  inspect_nodes i [] seen = ([], seen)
  inspect_nodes i (node ∷ nodes) seen = and_then (inspect_node i node seen) (inspect_nodes i nodes)

  unfoldable pub inspect_files : Assoc String Expr → Typed → List File → List ℕ → Checked
  inspect_files types typed [] seen = ([], seen)
  inspect_files types typed (f ∷ files) seen =
      let i : Inspector = record { file = f.path; types = types; type_info = typed.type_info } in
      and_then (inspect_nodes i f.nodes seen) (inspect_files types typed files)

  -- groups[key] = append(groups[key], file)
  unfoldable pub parse_files :
      List String → Assoc String (List File) → Result (Assoc String (List File))
  parse_files [] groups = ok groups
  parse_files (path ∷ paths) groups = do
    f ← go.parse_file path
    let key = go.dir path <> "/" <> f.package_name
    parse_files paths (insert key (or_else (lookup key groups) [] ++ f ∷ []) groups)

  unfoldable pub inspect_groups :
      Assoc String String → Bool → Assoc String (List File) → List ℕ → Result (List Finding)
  unfolding declared_types inspect_files
  inspect_groups exports strict [] seen = ok []
  inspect_groups exports strict ((key, files) ∷ groups) seen =
      let typed = go.check exports key files in
      let here = inspect_files (declared_types files []) typed files seen in
      let rest = inspect_groups exports strict groups here.1 in
      (if strict then elim typed.first_error [ none ↦ ok tt | some e ↦ err e ] else ok tt)
      >> (rest >>= λ more. ok (here.0 ++ more))

  unfoldable pub inspect_sources : List String → Assoc String String → Bool → Result (List Finding)
  unfolding parse_files inspect_groups
  inspect_sources paths exports strict = do
    groups ← parse_files paths []
    findings ← inspect_groups exports strict groups []
    ok (go.sort_slice finding_less findings)

  abbrev line_of : String → Finding → String
  line_of root f =
      or_else (go.relative root f.file) f.file <> ":" <> go.itoa f.line <> ": " <> f.rule

  abbrev pub outcome_of : Result (List String × List Finding × String) → Outcome
  outcome_of (err e) = record { code = 2; written = [] }
  outcome_of (ok (paths, findings, root)) = record {
    code = if ltb 0 (length findings) then 1 else 0;
    written =
        map (line_of root) findings
        ++ ("checked "
            <> go.itoa (length paths)
            <> " Go files; "
            <> go.itoa (length findings)
            <> " struct-layout violations")
          ∷ [];
  }

  unfoldable pub main :
      Result (List Package) → Result (List (String × String)) → Result String → Outcome
  unfolding source_paths inspect_sources add_exports
  main listed exported root = outcome_of (do
    paths ← source_paths listed
    packages ← exported
    findings ← inspect_sources paths (add_exports packages []) true
    at ← root
    ok (paths, findings, at))
