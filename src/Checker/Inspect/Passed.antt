-- ===== src/Checker/Inspect/Passed.antt =====
-- tools/checker/main.go: what a repository that the checker passes is like.
use trae_api.Prelude.{
  ℕ, ◌<◌, String, string_eq, true, List, [], ◌∷◌, ◌++◌, Assoc, lookup, ◌≡◌, refl, inl, inr, length,
  or_else, arith, subst, sym, ap, ◌∙◌,
}
use trae_api.Fault.{Result, ok, err, >>=-eq-ok, >>-eq-ok}
use trae_api.Checker.{Expr, Fields, field, Finding}
use trae_api.Checker.Order.{finding_less}
use trae_api.Checker.Layout.{Ast, Inspector, check_definition}
use trae_api.Checker.Layout.Lines.{
  append_nil, FieldsInOrder, FieldsOnOwnLines, check_definition_iff,
}
use trae_api.Checker.Inspect.Groups.{
  In, top, below, In-append_right, InGroup, InGroup-insert_new, InGroup-add,
}
use trae_api.Checker.Inspect.{
  Node, struct_node, File, Package, Toolchain, Typed, source_paths, declared_types, inspect_nodes,
  inspect_files, parse_files, inspect_groups, inspect_sources, add_exports, outcome_of, main,
}

ok-injective : {A : Type 0} {x y : A} → ok x ≡ ok y → x ≡ y
ok-injective h = cc

no_length : {A : Type 0} (xs : List A) → length xs ≡ 0 → xs ≡ []
no_length [] h = refl
no_length (x ∷ xs) h = absurd (omega arith)

module _ ⦃go : Toolchain⦄ ⦃ast : Ast⦄ where
  -- The groups that were there stay, and each path adds its file.
  parse_files-old :
      (paths : List String) (groups : Assoc String (List File)) (f : File)
      {done : Assoc String (List File)}
      → parse_files paths groups ≡ ok done
      → InGroup f groups
      → InGroup f done
  unfolding parse_files
  parse_files-old [] groups f h i = let q : groups ≡ _ = cc in subst (InGroup f) q i
  parse_files-old (path ∷ paths) groups f h i =
      let (g, e, k) = >>=-eq-ok (go.parse_file path) _ h in
      parse_files-old paths _ f k (InGroup-add f g _ groups i)

  parse_files-new :
      (paths : List String) (groups : Assoc String (List File)) (path : String) (f : File)
      {done : Assoc String (List File)}
      → parse_files paths groups ≡ ok done
      → In path paths
      → go.parse_file path ≡ ok f
      → InGroup f done
  unfolding parse_files
  parse_files-new [] groups path f h i p = elim i [ ]
  parse_files-new (path' ∷ paths) groups path f h top p =
      let (g, e, k) = >>=-eq-ok (go.parse_file path) _ h in
      let q : g ≡ f = cc in
      parse_files-old paths _ f k (
        InGroup-insert_new f _ _ groups (
          In-append_right (or_else (lookup _ groups) []) (g ∷ [])
            (subst (λ z. In f (z ∷ [])) (sym q) top)))
  parse_files-new (path' ∷ paths) groups path f h (below i) p =
      let (g, e, k) = >>=-eq-ok (go.parse_file path') _ h in parse_files-new paths _ path f k i p

  -- No finding about a list of nodes means none about any of them.
  inspect_nodes-clean :
      (i : Inspector) (nodes : List Node) (seen : List ℕ) (at : ℕ) (fs : Fields) (closing : ℕ)
      → (inspect_nodes i nodes seen).0 ≡ []
      → In (struct_node at fs closing) nodes
      → check_definition i.file at fs closing ≡ []
  unfolding inspect_nodes
  inspect_nodes-clean i [] seen at fs closing h n = elim n [ ]
  inspect_nodes-clean i (node ∷ nodes) seen at fs closing h top = (append_nil _ _ h).0
  inspect_nodes-clean i (node ∷ nodes) seen at fs closing h (below n) =
      inspect_nodes-clean i nodes _ at fs closing (append_nil _ _ h).1 n

  inspect_files-clean :
      (types : Assoc String Expr) (typed : Typed) (files : List File) (seen : List ℕ) (f : File)
      (at : ℕ) (fs : Fields) (closing : ℕ)
      → (inspect_files types typed files seen).0 ≡ []
      → In f files
      → In (struct_node at fs closing) f.nodes
      → check_definition f.path at fs closing ≡ []
  unfolding inspect_files
  inspect_files-clean types typed [] seen f at fs closing h i n = elim i [ ]
  inspect_files-clean types typed (g ∷ files) seen f at fs closing h top n =
      inspect_nodes-clean _ f.nodes seen at fs closing (append_nil _ _ h).0 n
  inspect_files-clean types typed (g ∷ files) seen f at fs closing h (below i) n =
      inspect_files-clean types typed files _ f at fs closing (append_nil _ _ h).1 i n

  inspect_groups-clean :
      (exports : Assoc String String) (groups : Assoc String (List File)) (seen : List ℕ) (f : File)
      (at : ℕ) (fs : Fields) (closing : ℕ) {found : List Finding}
      → inspect_groups exports true groups seen ≡ ok found
      → found ≡ []
      → InGroup f groups
      → In (struct_node at fs closing) f.nodes
      → check_definition f.path at fs closing ≡ []
  unfolding inspect_groups
  inspect_groups-clean exports [] seen f at fs closing h z i n = absurd i
  inspect_groups-clean exports ((key, files) ∷ groups) seen f at fs closing h z i n =
      let (strict, h) = >>-eq-ok _ _ h in
      let (more, e, h) = >>=-eq-ok (inspect_groups exports true groups _) _ h in
      let (x, y) =
        append_nil
          (inspect_files (declared_types files []) (go.check exports key files) files seen).0 more
          (let q : _ ++ more ≡ _ = ok-injective h in q ∙ z) in
      elim i [
        | inl j ↦
            inspect_files-clean (declared_types files []) (go.check exports key files) files seen f
              at fs closing x j n
        | inr j ↦ inspect_groups-clean exports groups _ f at fs closing e y j n
      ]

  inspect_sources-clean :
      (paths : List String) (exports : Assoc String String) (path : String) (f : File) (at : ℕ)
      (fs : Fields) (closing : ℕ) {found : List Finding}
      → ((found : List Finding) → length (go.sort_slice finding_less found) ≡ length found)
      → inspect_sources paths exports true ≡ ok found
      → length found ≡ 0
      → In path paths
      → go.parse_file path ≡ ok f
      → In (struct_node at fs closing) f.nodes
      → check_definition f.path at fs closing ≡ []
  unfolding inspect_sources
  inspect_sources-clean paths exports path f at fs closing keeps h z i p n =
      let (groups, g, h) = >>=-eq-ok (parse_files paths []) _ h in
      let (found, e, h) = >>=-eq-ok (inspect_groups exports true groups []) _ h in
      let q : go.sort_slice finding_less found ≡ _ = ok-injective h in
      let l : length found ≡ 0 = sym (keeps found) ∙ ap length q ∙ z in
      inspect_groups-clean exports groups [] f at fs closing e (no_length found l)
        (parse_files-new paths [] path f g i p) n

  outcome-passed :
      (m : Result (List String × List Finding × String))
      → (outcome_of m).code ≡ 0
      → (paths : List String) × (found : List Finding) × (at : String) × (m ≡ ok (paths, found, at))
        × (length found ≡ 0)
  outcome-passed (err e) h = absurd (omega arith)
  outcome-passed (ok (paths, found, at)) h = (paths, found, at, refl, ground arith)

  -- In a repository that the checker passes, with exit code 0, each struct definition with fields in one of
  -- the source files that were listed has its keyword, its fields and its closing brace on lines of their
  -- own and declares one name in each field at most, if the positions are in order and sort.Slice keeps
  -- the number of findings.
  pub main-passed :
      (listed : Result (List Package)) (exported : Result (List (String × String)))
      (root : Result String) (paths : List String) (path : String) (f : File) (at : ℕ)
      (names : List String) (type : Expr) (begins ends : ℕ) (rest : Fields) (closing : ℕ)
      → ((found : List Finding) → length (go.sort_slice finding_less found) ≡ length found)
      → (main listed exported root).code ≡ 0
      → source_paths listed ≡ ok paths
      → In path paths
      → go.parse_file path ≡ ok f
      → In (struct_node at (field names type begins ends rest) closing) f.nodes
      → 0 < at
      → FieldsInOrder at (field names type begins ends rest) closing
      → FieldsOnOwnLines at (field names type begins ends rest) closing
  unfolding main
  main-passed listed exported root paths path f at names type begins ends rest closing keeps passed
        l i p n pos order =
      let (paths', found, r, e, z) = outcome-passed _ passed in
      let (sources, s, e) = >>=-eq-ok (source_paths listed) _ e in
      let (packages, x, e) = >>=-eq-ok exported _ e in
      let (found', y, e) = >>=-eq-ok (inspect_sources sources (add_exports packages []) true) _ e in
      let (r', w, e) = >>=-eq-ok root _ e in
      let q : found' ≡ found = cc in
      let k : sources ≡ paths = cc in
      (check_definition_iff f.path at names type begins ends rest closing pos order).0 (
        inspect_sources-clean sources (add_exports packages []) path f at
          (field names type begins ends rest) closing keeps y (ap length q ∙ z)
          (subst (In path) (sym k) i) p n)
