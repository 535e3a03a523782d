-- ===== src/Store/Served.antt =====
-- credential_store.go: what the API reads after Auth has saved (readAPICredential after Save).
use trae_api.Prelude.{
  ℕ, ◌≤◌, String, string_eq, Bool, true, none, some, ◌≡◌, ◌≢◌, refl, sym, ◌∙◌, ap, if◌then◌else◌,
  leb, len, lookup, pos, inl, inr, Bool-cases,
}
use trae_api.Fault.{login_required, Result, ok, err, Result-cases}
use trae_api.Login.{Credential}
use trae_api.Store.{Disk, Calls}
use trae_api.Store.Codec.{
  ApiCredential, StoredCredential, Encoding, decode_credential, validate_api, api_view,
}
use trae_api.Store.Read.{max_file, read_credential_file, read_file, read_api_credential}
use trae_api.Store.Save.{prepare_save, save, stored}
use trae_api.Store.Atomic.{save-atomic}
use trae_api.Store.RoundTrip.{quiet, read-own_file, prepare_save-Prepared}

-- The two structs have the same JSON names, so that the text of a stored credential is decoded into its
-- part that the API knows.
pub record SharesNames (go : Encoding) : Type 0 where
  pub decode_api-marshal :
      (s : StoredCredential) (text : String)
      → go.marshal s ≡ some text
      → go.decode_api text ≡ some (api_view s.version s.credential, true)

module _ ⦃go : Encoding⦄ where
  -- What the API makes of a credential at a time: it has to log in again once it has expired.
  abbrev pub seen_at : ℕ → Credential → Result ApiCredential
  seen_at now c = if leb c.expires_at now then err login_required else ok (api_view (pos 1) c)

  read-decoded :
      (path text : String) (now : ℕ) (c : Credential) (disk : Disk)
      → read_credential_file quiet path disk ≡ ok text
      → go.decode_api text ≡ some (api_view (pos 1) c, true)
      → validate_api (api_view (pos 1) c) ≡ ok tt
      → read_api_credential quiet path now disk ≡ seen_at now c
  unfolding read_api_credential
  read-decoded path text now c disk r d v =
      rw (r, read_file)
        (rw (d, decode_credential)
          (rw (v) (elim (Bool-cases (leb c.expires_at now)) [
            | inl e ↦ rw (e) refl
            | inr e ↦ rw (e) refl
          ])))

  -- After a save that succeeds, the API reads the part of the credential that it knows, or is told to
  -- log in once the credential has expired, if the text of a stored credential is decoded into that part
  -- and fits the limit of the reader. The temporary name is fresh and not the path, and no system call of the read fails.
  pub read-save :
      (names : SharesNames go) (io inner : Calls) (temp path : String) (held : Bool)
      (c : Credential) (disk : Disk) (now : ℕ)
      → lookup temp disk.files ≡ none
      → temp ≢ path
      → ((text : String) → prepare_save io inner path held c disk ≡ ok text → len text ≤ max_file)
      → (save io inner temp path held c disk).0 ≡ ok tt
      → read_api_credential quiet path now (save io inner temp path held c disk).1 ≡ seen_at now c
  read-save names io inner temp path held c disk now fresh apart fits h =
      let atomic = save-atomic io inner temp path held c disk fresh apart in
      elim (Result-cases (prepare_save io inner path held c disk)) [
        | inl (e, bad) ↦
            let q : err e ≡ ok tt =
              sym (ap (λ (r : Result (Unit {0}) × Disk). r.0) (atomic.0 e bad)) ∙ h in
            absurd (cc)
        | inr (text, good) ↦
            let p = prepare_save-Prepared io inner path held c disk text good in
            let r = atomic.1 text good in
            read-decoded path text now c _
              (read-own_file path text _ (r.directory ∙ p.directory) (r.written h) (fits text good))
              (names.decode_api-marshal (stored c p.der) text p.encoded) p.complete
      ]
