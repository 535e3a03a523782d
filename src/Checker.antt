-- ===== src/Checker.antt =====
-- tools/checker/main.go: the checker of the layout of struct definitions and struct literals. This file
-- has the syntax that it looks at and how it finds the struct behind a type.
--
-- Of a position the line is kept; a node and what it holds stand in one file. The nodes that ast.Inspect visits, the
-- result of the type checker and the order of sort.Slice are arguments.

pub mod Inspect
pub mod Layout
pub mod Order
pub mod Resolved
use trae_api.Prelude.{ℕ, zero, suc, String, string_eq, Option, none, some, List, Assoc, lookup}

-- A field has its names, its type and the lines of its first and its last character; so has an element its
-- lines. `absent` is the nil of ast.Expr, and a literal is known by a number that no other has.
mutual
  pub data Expr : Type 0 where
    absent : Expr
    ident : String → Expr
    star : Expr → Expr
    index : Expr → Expr
    index_list : Expr → Expr
    selector : Expr
    array_type : Expr → Expr
    map_type : Expr → Expr
    struct_type : ℕ → Fields → ℕ → Expr
    composite : ℕ → Expr → ℕ → Elements → ℕ → Expr
    key_value : Expr → Expr → Expr
    another : Expr

  pub data Fields : Type 0 where
    no_fields : Fields
    field : List String → Expr → ℕ → ℕ → Fields → Fields

  pub data Elements : Type 0 where
    no_elements : Elements
    element : Expr → ℕ → ℕ → Elements → Elements

pub record Finding : Type 0 where
  pub file : String
  pub line : ℕ
  pub rule : String

-- The loop of `underlying`, which makes ten rounds at most.
unfoldable pub resolve : ℕ → Assoc String Expr → Expr → Expr
resolve zero types e = e
resolve (suc n) types (star x) = resolve n types x
resolve (suc n) types (index x) = resolve n types x
resolve (suc n) types (index_list x) = resolve n types x
resolve (suc n) types (ident name) = elim (lookup name types) [
  | none ↦ ident name
  | some e ↦ resolve n types e
]
resolve (suc n) types e = e

unfoldable pub underlying : Assoc String Expr → Expr → Expr
unfolding resolve
underlying types e = resolve 10 types e

abbrev pub fields_of : Expr → Option Fields
fields_of (struct_type at fields closing) = some fields
fields_of _ = none

unfoldable pub struct_fields : Assoc String Expr → Expr → Option Fields
unfolding underlying
struct_fields types e = fields_of (underlying types e)
