-- ===== src/Store/Atomic.antt =====
-- credential_store.go Save: what a save leaves on the disk, on success and on every failure.
use trae_api.Prelude.{
  String, ◌==◌, string_eq, Bool, true, Option, none, some, ◌≡◌, ◌≢◌, refl, sym, subst, ◌∙◌, ◌⊎◌,
  inl, inr, arith, if◌then◌else◌, lookup, insert, delete, lookup-insert, lookup-delete, text_eq_iff,
  text_eq_refl, Bool-cases, Assoc,
}
use trae_api.Fault.{Fault, Result, ok, err, ◌>>◌}
use trae_api.Login.{Credential}
use trae_api.Store.{Disk, File, regular, Calls, raise}
use trae_api.Store.Codec.{Encoding}
use trae_api.Store.Save.{rename, write_file, prepare_save, save, with_files, removed}

abbrev pub own_file : String → File
own_file text = record { kind = regular true; content = text }

-- The file at the path is the old one or the new one, the new one on success; the lock and the
-- directory stay, and so does every other file but the temporary one. The temporary file is gone, unless
-- the save has failed and the removal fails too.
pub record Replaced (removal : Option Fault) (temp path text : String) (before : Disk)
    (r : Result (Unit {0}) × Disk) : Type 0 where
  pub whole :
      (lookup path r.1.files ≡ lookup path before.files)
      ⊎ (lookup path r.1.files ≡ some (own_file text))
  pub written : r.0 ≡ ok tt → lookup path r.1.files ≡ some (own_file text)
  pub others : (p : String) → p ≢ path → p ≢ temp → lookup p r.1.files ≡ lookup p before.files
  pub temporary : (lookup temp r.1.files ≡ none) ⊎ ((removal ≢ none) × (r.0 ≢ ok tt))
  pub directory : r.1.directory ≡ before.directory
  pub locked : r.1.locked ≡ before.locked

pub lookup-rename :
    (old new p : String) (f : File) (files : Assoc String File)
    → lookup old files ≡ some f
    → lookup p (rename old new files)
      ≡ (if old == p then none else (if new == p then some f else lookup p files))
lookup-rename old new p f files h =
    rw (h, rename)
      (rw (lookup-delete old p (insert new f files)) (rw (lookup-insert new p f files) refl))

removed-directory :
    (temp : String) (o : Option Fault) (disk : Disk)
    → (removed o temp disk).directory ≡ disk.directory
removed-directory temp none disk = refl
removed-directory temp (some e) disk = refl

removed-locked :
    (temp : String) (o : Option Fault) (disk : Disk) → (removed o temp disk).locked ≡ disk.locked
removed-locked temp none disk = refl
removed-locked temp (some e) disk = refl

module _ (temp path text : String) (disk : Disk) (fresh : lookup temp disk.files ≡ none)
    (apart : temp ≢ path) where
  abbrev written : Assoc String File
  written = insert temp (own_file text) disk.files

  removed-written : (p : String) → lookup p (delete temp written) ≡ lookup p disk.files
  removed-written p = elim (Bool-cases (temp == p)) [
    | inl t ↦
        rw (lookup-delete temp p written, t)
          (sym (subst (λ q. lookup q disk.files ≡ none) ((text_eq_iff temp p).0 t) fresh))
    | inr t ↦
        rw (lookup-delete temp p written, t)
          (rw (lookup-insert temp p (own_file text) disk.files, t) refl)
  ]

  temp-written : lookup temp written ≡ some (own_file text)
  temp-written = rw (lookup-insert temp temp (own_file text) disk.files, text_eq_refl temp) refl

  own : Option File
  own = some (own_file text)

  -- What the rename makes of each path.
  settled :
      (p : String)
      → (if temp == p then none else (if path == p then own else lookup p written))
        ≡ (if path == p then own else lookup p disk.files)
  unfolding own
  settled p = elim (Bool-cases (temp == p)) [
    | inl t ↦
        let q = (text_eq_iff temp p).0 t in
        rw t (
          ground
            (arith, subst (λ x. lookup x disk.files ≡ none) q fresh, q, apart, text_eq_iff path p))
    | inr t ↦ rw t (rw (lookup-insert temp p (own_file text) disk.files, t) refl)
  ]

  twice :
      (b : Bool) (x : Option File)
      → (if b then none else (if b then none else x)) ≡ (if b then none else x)
  twice b x = ground arith

  abbrev left : Disk
  left = with_files disk written

  abbrev renamed : Disk
  renamed = with_files disk (rename temp path written)

  lookup-published :
      (o : Option Fault) (p : String)
      → lookup p (removed o temp renamed).files ≡ (if path == p then own else lookup p disk.files)
  unfolding own
  lookup-published none p = rw (lookup-delete temp p (rename temp path written)) (
      rw (lookup-rename temp path p (own_file text) written temp-written)
        (twice (temp == p) _ ∙ settled p))
  lookup-published (some e) p =
      rw (lookup-rename temp path p (own_file text) written temp-written) (settled p)

  lookup-left :
      (o : Option Fault) (p : String)
      → p ≢ temp
      → lookup p (removed o temp left).files ≡ lookup p disk.files
  lookup-left none p n = removed-written p
  lookup-left (some e) p n =
      rw (lookup-insert temp p (own_file text) disk.files) (ground (arith, text_eq_iff temp p, n))

  temp-left : (o : Option Fault) → (lookup temp (removed o temp left).files ≡ none) ⊎ (o ≢ none)
  temp-left none = inl (removed-written temp ∙ fresh)
  temp-left (some e) = inr (λ q. absurd (cc))

  kept :
      (o : Option Fault) (e : Fault) → Replaced o temp path text disk (err e, removed o temp left)
  kept o e = record {
    whole = inl (lookup-left o path (λ q. apart (sym q)));
    written = λ q. absurd (cc);
    others = λ p n m. lookup-left o p m;
    temporary = elim (temp-left o) [ inl h ↦ inl h | inr h ↦ inr (h, λ q. absurd (cc)) ];
    directory = removed-directory temp o left;
    locked = removed-locked temp o left;
  }

  published :
      (o : Option Fault) (m : Result (Unit {0}))
      → Replaced o temp path text disk (m, removed o temp renamed)
  unfolding own
  published o m = record {
    whole = inr new;
    written = λ _. new;
    others = λ p n t. rw (lookup-published o p) (ground (arith, text_eq_iff path p, n));
    temporary = inl (lookup-published o temp ∙ ground (arith, text_eq_iff path temp, apart, fresh));
    directory = removed-directory temp o renamed;
    locked = removed-locked temp o renamed;
  }
    where
      new : lookup path (removed o temp renamed).files ≡ some (own_file text)
      new = rw (lookup-published o path, text_eq_refl path) refl

  unchanged : (o : Option Fault) (e : Fault) → Replaced o temp path text disk (err e, disk)
  unchanged o e = record {
    whole = inl refl;
    written = λ q. absurd (cc);
    others = λ p n m. refl;
    temporary = inl fresh;
    directory = refl;
    locked = refl;
  }

  outcome :
      (o : Option Fault) (made written_out synced : Result (Unit {0}))
      → Replaced o temp path text disk (elim made as (λ _. Result (Unit {0}) × Disk) [
        | err e ↦ (err e, disk)
        | ok _ ↦ elim written_out as (λ _. Result (Unit {0}) × Disk) [
          | err e ↦ (err e, removed o temp left)
          | ok _ ↦ (synced, removed o temp renamed)
        ]
      ])
  outcome o (err e) n s = unchanged o e
  outcome o (ok done) (err e) s = kept o e
  outcome o (ok done) (ok _) s = published o s

  write_file-Replaced :
      (io : Calls) → Replaced io.remove temp path text disk (write_file io temp path text disk)
  unfolding write_file
  write_file-Replaced io =
      outcome io.remove (raise io.create_temp)
        (raise io.chmod >> raise io.write >> raise io.sync >> raise io.close >> raise io.rename)
        (raise io.open_dir >> raise io.sync_dir)

module _ ⦃go : Encoding⦄ (io inner : Calls) (temp path : String) (held : Bool) (c : Credential)
    (disk : Disk) (fresh : lookup temp disk.files ≡ none) (apart : temp ≢ path) where
  pub save-atomic :
      ((e : Fault)
        → prepare_save io inner path held c disk ≡ err e
        → save io inner temp path held c disk ≡ (err e, disk))
      × ((text : String)
          → prepare_save io inner path held c disk ≡ ok text
          → Replaced io.remove temp path text disk (save io inner temp path held c disk))
  unfolding save
  save-atomic = (
    λ e h. rw (h, save) refl,
    λ text h. rw (h, save) (write_file-Replaced temp path text disk fresh apart io),
  )
