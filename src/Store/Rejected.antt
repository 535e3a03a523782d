-- ===== src/Store/Rejected.antt =====
-- credential_store.go: QuarantineRejected, and what the API reads of a credential.
use trae_api.Prelude.{
  ◌<◌, ℕ, String, ◌==◌, string_eq, ◌<>◌, Bool, true, false, not, Option, none, some, ◌≡◌, ◌≢◌, refl,
  sym, subst, ap, ◌∙◌, ◌⊎◌, inl, inr, arith, if◌then◌else◌, leb, is_some, lookup, Option-cases,
  text_eq_iff, text_eq_refl,
}
use trae_api.Fault.{
  Fault, login_required, Result, ok, err, reject, >>=-eq-ok, >>-eq-ok, reject-eq-ok, Result-cases,
}
use trae_api.Login.{Credential}
use trae_api.Store.{Disk, private, File, Calls, raise, checked_dir}
use trae_api.Store.Codec.{
  ApiCredential, Encoding, decode_credential, validate_api, is_incomplete, is_current,
}
use trae_api.Store.Read.{read_credential_file, load, read_api_credential, read_file}
use trae_api.Store.Save.{rename, prepare_quarantine, quarantine_rejected, with_files}
use trae_api.Store.Atomic.{lookup-rename}
use trae_api.Store.RoundTrip.{quiet}

-- The file has moved from the path to a destination that was free; all else stays.
pub record Moved (path destination : String) (before after : Disk) : Type 0 where
  pub gone : lookup path after.files ≡ none
  pub free : lookup destination before.files ≡ none
  pub kept : lookup destination after.files ≡ lookup path before.files
  pub others :
      (p : String) → p ≢ path → p ≢ destination → lookup p after.files ≡ lookup p before.files
  pub directory : after.directory ≡ before.directory

is_some-false : {A : Type 0} (o : Option A) → is_some o ≡ false → o ≡ none
is_some-false none h = refl
is_some-false (some a) h = absurd (cc)

read-exists :
    (io : Calls) (path : String) (disk : Disk) {text : String}
    → read_credential_file io path disk ≡ ok text
    → (f : File) × (lookup path disk.files ≡ some f)
unfolding read_credential_file
read-exists io path disk h = elim (Option-cases (lookup path disk.files)) [
  | inr (f, e) ↦ (f, e)
  | inl e ↦ absurd (ground (arith, e))
]

module _ ⦃go : Encoding⦄ where
  load-exists :
      (io : Calls) (path : String) (disk : Disk) {c : Credential}
      → load io path disk ≡ ok c
      → (f : File) × (lookup path disk.files ≡ some f)
  unfolding load
  load-exists io path disk h =
      let (text, e, rest) = >>=-eq-ok (read_credential_file io path disk) _ h in
      read-exists io path disk e

  -- The store that is open has loaded a credential with this token from the path.
  pub record Rejects (inner : Calls) (path : String) (held : Bool) (token : String) (disk : Disk)
      : Type 0 where
    pub credential : Credential
    pub loaded : load inner path disk ≡ ok credential
    pub rejected : credential.token ≡ token
    pub in_use : held ≡ true

  record Checked (inner : Calls) (path destination : String) (held : Bool) (token : String)
      (disk : Disk) : Type 0 where
    rejects : Rejects inner path held token disk
    file : File
    found : lookup path disk.files ≡ some file
    free : lookup destination disk.files ≡ none

  prepare_quarantine-Checked :
      (io inner : Calls) (path destination : String) (held : Bool) (token : String) (disk : Disk)
      → prepare_quarantine io inner path destination held token disk ≡ ok tt
      → Checked inner path destination held token disk
  unfolding prepare_quarantine
  prepare_quarantine-Checked io inner path destination held token disk h =
      let (a, h1) = >>-eq-ok (reject (not held) _) _ h in
      let (b, h2) = >>-eq-ok (checked_dir io disk) _ h1 in
      let (c, e, h3) = >>=-eq-ok (load inner path disk) _ h2 in
      let (d, h4) = >>-eq-ok (reject (not (c.token == token)) _) _ h3 in
      let (r, h5) = >>-eq-ok (raise io.random) _ h4 in
      let (s, h6) = >>-eq-ok (raise io.stat) _ h5 in
      let (free, h7) = >>-eq-ok (reject (is_some (lookup destination disk.files)) _) _ h6 in
      let (f, found) = load-exists inner path disk e in
      record {
        rejects = record {
          credential = c;
          loaded = e;
          rejected =
              let n = reject-eq-ok (not (c.token == token)) _ d in
              ground (arith, text_eq_iff c.token token, n);
          in_use = let n = reject-eq-ok (not held) _ a in ground (arith, n);
        };
        file = f;
        found = found;
        free = is_some-false _ (reject-eq-ok _ _ free);
      }

  moved :
      (inner : Calls) (path destination : String) (held : Bool) (token : String) (disk : Disk)
      → path ≢ destination
      → Checked inner path destination held token disk
      → Moved path destination disk (with_files disk (rename path destination disk.files))
  moved inner path destination held token disk apart c = record {
    gone = rw (at path, text_eq_refl path) refl;
    free = c.free;
    kept =
        at destination
        ∙ ground (arith, text_eq_iff path destination, text_eq_refl destination, c.found, apart);
    others = λ p n m. at p ∙ ground (arith, text_eq_iff path p, text_eq_iff destination p, n, m);
    directory = refl;
  }
    where
      at :
          (p : String)
          → lookup p (rename path destination disk.files) ≡ (
              if path == p
              then none
              else (if destination == p then some c.file else lookup p disk.files))
      at p = lookup-rename path destination p c.file disk.files c.found

  -- A quarantine either fails and changes nothing, or the store is open, the credential that is loaded
  -- from the path has the rejected token, and its file is moved, as it is, to a destination that was
  -- free; success and a failure to sync the directory are of the second kind. No file is deleted or
  -- overwritten. The destination is not the path.
  pub quarantine_rejected-Moved :
      (io inner : Calls) (path suffix : String) (held : Bool) (token : String) (disk : Disk)
      → path ≢ path <> ".rejected-" <> suffix
      → ((e : Fault) × (quarantine_rejected io inner path suffix held token disk ≡ (err e, disk)))
        ⊎ (Rejects inner path held token disk
            × Moved path
                (path <> ".rejected-" <> suffix)
                disk
                (quarantine_rejected io inner path suffix held token disk).1)
  unfolding quarantine_rejected
  quarantine_rejected-Moved io inner path suffix held token disk apart =
      let destination = path <> ".rejected-" <> suffix in
      elim (Result-cases (prepare_quarantine io inner path destination held token disk)) [
        | inl (e, h) ↦ inl (e, rw (h, quarantine_rejected) refl)
        | inr (done, h) ↦
            let c = prepare_quarantine-Checked io inner path destination held token disk h in
            inr (
              c.rejects,
              rw (h, quarantine_rejected) (moved inner path destination held token disk apart c),
            )
      ]

  -- The API is told to log in when there is no credential file, as after a quarantine.
  pub read_api_credential-missing :
      (path : String) (now : ℕ) (disk : Disk)
      → disk.directory ≡ private
      → lookup path disk.files ≡ none
      → read_api_credential quiet path now disk ≡ err login_required
  unfolding read_api_credential read_credential_file checked_dir
  read_api_credential-missing path now disk d h = ground (arith, d, h)

  valid_fields :
      (a : ApiCredential)
      → validate_api a ≡ ok tt
      → (is_current a.version ≡ true) × (is_incomplete a ≡ false)
  unfolding validate_api
  valid_fields a v =
      let (w, e) = >>-eq-ok (reject (not (is_current a.version)) _) _ v in
      (ground (arith, reject-eq-ok _ _ w), reject-eq-ok _ _ e)

  -- A credential that the API reads has not expired and is complete and of the current version.
  pub read_api_credential-valid :
      (io : Calls) (path : String) (now : ℕ) (disk : Disk) {c : ApiCredential}
      → read_api_credential io path now disk ≡ ok c
      → (now < c.expires_at) × (is_current c.version ≡ true) × (is_incomplete c ≡ false)
  unfolding read_api_credential
  read_api_credential-valid io path now disk {c} h =
      let (text, e, h1) = >>=-eq-ok (read_file io path disk) _ h in
      let (a, e1, h2) = >>=-eq-ok (decode_credential (go.decode_api text)) _ h1 in
      let (v, h3) = >>-eq-ok (validate_api a) _ h2 in
      let (t, h4) = >>-eq-ok (reject (leb a.expires_at now) login_required) _ h3 in
      let same : a ≡ c = cc in
      subst
        (λ (x : ApiCredential).
          (now < x.expires_at) × (is_current x.version ≡ true) × (is_incomplete x ≡ false))
        same (ground (arith, reject-eq-ok _ _ t), (valid_fields a v).0, (valid_fields a v).1)

  -- After a quarantine that succeeds, in a private directory and to a destination that is not the path,
  -- the API is told to log in, at any time and as long as no system call fails.
  pub quarantine_rejected-missing :
      (io inner : Calls) (path suffix : String) (held : Bool) (token : String) (now : ℕ)
      (disk : Disk)
      → path ≢ path <> ".rejected-" <> suffix
      → disk.directory ≡ private
      → (quarantine_rejected io inner path suffix held token disk).0 ≡ ok tt
      → read_api_credential quiet path now
          (quarantine_rejected io inner path suffix held token disk).1
        ≡ err login_required
  quarantine_rejected-missing io inner path suffix held token now disk apart d h =
      elim (quarantine_rejected-Moved io inner path suffix held token disk apart) [
        | inl (e, q) ↦
            let r : err e ≡ ok tt = sym (ap (λ (r : Result (Unit {0}) × Disk). r.0) q) ∙ h in
            absurd (cc)
        | inr (u, m) ↦ read_api_credential-missing path now _ (m.directory ∙ d) m.gone
      ]
