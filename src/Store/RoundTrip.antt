-- ===== src/Store/RoundTrip.antt =====
-- credential_store.go: Load after Save.
use trae_api.Prelude.{
  ◌≤◌, String, ◌==◌, string_eq, Bool, true, false, not, ◌||◌, Option, none, some, ◌≡◌, ◌≢◌, refl,
  sym, ◌∙◌, arith, eqb, len, lookup, pos, ap, inl, inr,
}
use trae_api.Fault.{Fault, Result, ok, err, reject, >>=-eq-ok, >>-eq-ok, reject-eq-ok, Result-cases}
use trae_api.Login.{Credential}
use trae_api.Store.{Disk, private, Calls, checked_dir}
use trae_api.Store.Codec.{
  StoredCredential, Encoding, IsLawful, decode_credential, validate_api, api_view,
}
use trae_api.Store.Read.{max_file, read_credential_file, restore, load}
use trae_api.Store.Save.{prepare_save, save, stored, replaceable, require}
use trae_api.Store.Atomic.{own_file, Replaced, save-atomic}

-- No system call fails.
abbrev pub quiet : Calls
quiet = record {
  lstat = none;
  made = ok private;
  open_file = none;
  stat = none;
  read = none;
  create_temp = none;
  chmod = none;
  write = none;
  sync = none;
  close = none;
  remove = none;
  rename = none;
  open_dir = none;
  sync_dir = none;
  random = none;
  lock = none;
}

checked_dir-private :
    (io : Calls) (disk : Disk) → checked_dir io disk ≡ ok tt → disk.directory ≡ private
unfolding checked_dir
checked_dir-private io disk h = ground arith

pub read-own_file :
    (path text : String) (disk : Disk)
    → disk.directory ≡ private
    → lookup path disk.files ≡ some (own_file text)
    → len text ≤ max_file
    → read_credential_file quiet path disk ≡ ok text
unfolding read_credential_file checked_dir
read-own_file path text disk d h l = ground (arith, d, h, l)

module _ ⦃go : Encoding⦄ where
  -- What the checks of Save have seen when they let a credential pass.
  pub record Prepared (c : Credential) (disk : Disk) (text : String) : Type 0 where
    pub der : String
    pub key : go.marshal_key c.device_key ≡ some der
    pub encoded : go.marshal (stored c der) ≡ some text
    pub complete : validate_api (api_view (pos 1) c) ≡ ok tt
    pub refreshable :
        (c.refresh_token == ""
          || eqb c.refresh_expires_at 0
          || c.device_key == ""
          || not (go.is_p256 c.device_key))
        ≡ false
    pub directory : disk.directory ≡ private

  require-eq-ok : {A : Type 0} (o : Option A) (e : Fault) {a : A} → require o e ≡ ok a → o ≡ some a
  require-eq-ok none e h = absurd (cc)
  require-eq-ok (some x) e h = cc

  pub prepare_save-Prepared :
      (io inner : Calls) (path : String) (held : Bool) (c : Credential) (disk : Disk)
      (text : String)
      → prepare_save io inner path held c disk ≡ ok text
      → Prepared c disk text
  unfolding prepare_save
  prepare_save-Prepared io inner path held c disk text h =
      let (a, h1) = >>-eq-ok (reject (not held) _) _ h in
      let (complete, h2) = >>-eq-ok (validate_api (api_view (pos 1) c)) _ h1 in
      let (refreshable, h3) = >>-eq-ok (reject _ _) _ h2 in
      let (der, key, h4) = >>=-eq-ok (require (go.marshal_key c.device_key) _) _ h3 in
      let (out, encoded, h5) = >>=-eq-ok (require (go.marshal (stored c der)) _) _ h4 in
      let (dir, h6) = >>-eq-ok (checked_dir io disk) _ h5 in
      let (r, h7) = >>-eq-ok (replaceable (load inner path disk)) _ h6 in
      let same : out ≡ text = cc in
      record {
        der = der;
        key = require-eq-ok _ _ key;
        encoded = require-eq-ok _ _ encoded ∙ ap some same;
        complete = complete;
        refreshable = reject-eq-ok _ _ refreshable;
        directory = checked_dir-private io disk dir;
      }

  restore-stored :
      (laws : IsLawful go) (c : Credential) (disk : Disk) (text : String) (p : Prepared c disk text)
      → restore (record (stored c p.der) { credential = record c { device_key = "" } }) ≡ ok c
  unfolding restore
  restore-stored laws c disk text p = ground (
    arith,
    laws.unbase64-base64 p.der,
    laws.base64-ne-empty c.device_key p.der p.key,
    laws.parse-marshal_key c.device_key p.der p.key,
  )

  load-decoded :
      (path text : String) (disk : Disk) (s : StoredCredential)
      → read_credential_file quiet path disk ≡ ok text
      → go.decode_stored text ≡ some (s, true)
      → load quiet path disk ≡ restore s
  unfolding load decode_credential
  load-decoded path text disk s r d = rw r (rw (d, decode_credential) refl)

  -- A credential that was saved is loaded again as it was, its key and the mark of a pending
  -- refresh included, if the encoding is lawful and the text fits the limit of the reader. The
  -- temporary name is fresh and not the path, and no system call of the load fails.
  pub load-save :
      (laws : IsLawful go) (io inner : Calls) (temp path : String) (held : Bool) (c : Credential)
      (disk : Disk)
      → lookup temp disk.files ≡ none
      → temp ≢ path
      → ((text : String) → prepare_save io inner path held c disk ≡ ok text → len text ≤ max_file)
      → (save io inner temp path held c disk).0 ≡ ok tt
      → load quiet path (save io inner temp path held c disk).1 ≡ ok c
  load-save laws io inner temp path held c disk fresh apart fits h =
      elim (Result-cases (prepare_save io inner path held c disk)) [
        | inl (e, bad) ↦
            let q : err e ≡ ok tt =
              sym (ap (λ (r : Result (Unit {0}) × Disk). r.0) (atomic.0 e bad)) ∙ h in
            absurd (cc)
        | inr (text, good) ↦
            let p = prepare_save-Prepared io inner path held c disk text good in
            let r = atomic.1 text good in
            load-decoded path text _ _
              (read-own_file path text _ (r.directory ∙ p.directory) (r.written h) (fits text good))
              (laws.decode-marshal (stored c p.der) text p.encoded)
            ∙ restore-stored laws c disk text p
      ]
    where
      atomic :
          ((e : Fault)
            → prepare_save io inner path held c disk ≡ err e
            → save io inner temp path held c disk ≡ (err e, disk))
          × ((text : String)
              → prepare_save io inner path held c disk ≡ ok text
              → Replaced io.remove temp path text disk (save io inner temp path held c disk))
      atomic = save-atomic io inner temp path held c disk fresh apart
