-- ===== src/Store/Save.antt =====
-- credential_store.go: Save and QuarantineRejected. The writer lock is held while `held`.
use trae_api.Prelude.{
  String, ◌==◌, string_eq, ◌<>◌, Bool, true, not, ◌||◌, Option, none, some, if◌then◌else◌, eqb,
  lookup, insert, delete, Assoc, pos, is_some,
}
use trae_api.Fault.{Fault, failure, Result, ok, err, ◌>>=◌, ◌>>◌, reject}
use trae_api.Login.{Credential}
use trae_api.Store.{Disk, File, regular, Calls, raise, is_not_exist, checked_dir}
use trae_api.Store.Codec.{StoredCredential, Encoding, validate_api, api_view}
use trae_api.Store.Read.{load}

-- os.Rename
abbrev pub rename : String → String → Assoc String File → Assoc String File
rename old new files = elim (lookup old files) [
  | none ↦ files
  | some f ↦ delete old (insert new f files)
]

abbrev pub with_files : Disk → Assoc String File → Disk
with_files disk files = record disk { files = files }

-- `defer os.Remove(temp.Name())`, whose error is passed over
abbrev pub removed : Option Fault → String → Disk → Disk
removed none temp disk = with_files disk (delete temp disk.files)
removed (some e) temp disk = disk

-- The end of Save: the data goes to a fresh file, which then takes the place of the old one. How much of
-- the text a file has that is left behind is not told apart.
unfoldable pub write_file : Calls → String → String → String → Disk → Result (Unit {0}) × Disk
write_file io temp path text disk =
    let written =
      with_files disk (insert temp (record { kind = regular true; content = text }) disk.files) in
    let published = with_files disk (rename temp path written.files) in
    elim (raise io.create_temp) [
      | err e ↦ (err e, disk)
      | ok _ ↦
          elim (raise io.chmod
            >> raise io.write
            >> raise io.sync
            >> raise io.close
            >> raise io.rename) [
              | err e ↦ (err e, removed io.remove temp written)
              | ok _ ↦ (raise io.open_dir >> raise io.sync_dir, removed io.remove temp published)
            ]
    ]

abbrev pub require : {A : Type 0} → Option A → Fault → Result A
require none e = err e
require (some a) e = ok a

-- `_, err = s.Load(); err != nil && !errors.Is(err, os.ErrNotExist)`
abbrev pub replaceable : Result Credential → Result (Unit {0})
replaceable (ok c) = ok tt
replaceable (err e) = if is_not_exist e then ok tt else err e

module _ ⦃go : Encoding⦄ where
  abbrev pub stored : Credential → String → StoredCredential
  stored c der = record { credential = c; version = pos 1; device_private_key = go.base64 der }

  -- The checks of Save, and the data that it is going to write. `inner` are the calls of its Load.
  unfoldable pub prepare_save : Calls → Calls → String → Bool → Credential → Disk → Result String
  unfolding validate_api checked_dir load
  prepare_save io inner path held c disk = do
    reject (not held) (failure "credential store closed")
    validate_api (api_view (pos 1) c)
    reject
        (c.refresh_token == ""
          || eqb c.refresh_expires_at 0
          || c.device_key == ""
          || not (go.is_p256 c.device_key))
        (failure "incomplete Auth credential")
    der ← require (go.marshal_key c.device_key) (failure "encode device private key failed")
    text ← require (go.marshal (stored c der)) (failure "encode credential failed")
    checked_dir io disk
    replaceable (load inner path disk)
    ok text

  unfoldable pub save :
      Calls → Calls → String → String → Bool → Credential → Disk → Result (Unit {0}) × Disk
  unfolding prepare_save write_file
  save io inner temp path held c disk = elim (prepare_save io inner path held c disk) [
    | err e ↦ (err e, disk)
    | ok text ↦ write_file io temp path text disk
  ]

  -- The checks of QuarantineRejected.
  unfoldable pub prepare_quarantine :
      Calls → Calls → String → String → Bool → String → Disk → Result (Unit {0})
  unfolding checked_dir load
  prepare_quarantine io inner path destination held token disk = do
    reject (not held) (failure "credential store closed")
    checked_dir io disk
    current ← load inner path disk
    reject (not (current.token == token)) (failure "credential changed during rejection")
    raise io.random
    raise io.stat
    reject (is_some (lookup destination disk.files))
        (failure "credential quarantine destination exists")
    raise io.rename

  -- `suffix` are the random bytes in hexadecimal.
  unfoldable pub quarantine_rejected :
      Calls → Calls → String → String → Bool → String → Disk → Result (Unit {0}) × Disk
  unfolding prepare_quarantine
  quarantine_rejected io inner path suffix held token disk =
      let destination = path <> ".rejected-" <> suffix in
      elim (prepare_quarantine io inner path destination held token disk) [
        | err e ↦ (err e, disk)
        | ok _ ↦ (
          raise io.open_dir >> raise io.sync_dir,
          with_files disk (rename path destination disk.files),
        )
      ]
