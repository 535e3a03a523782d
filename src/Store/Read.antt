-- ===== src/Store/Read.antt =====
-- credential_store.go: readCredentialFile, readAPICredential and Load.
use trae_api.Prelude.{
  ℕ, ◌^◌, String, ◌==◌, string_eq, Bool, true, false, not, ◌||◌, Option, none, some, if◌then◌else◌,
  ltb, leb, eqb, len, lookup,
}
use trae_api.Fault.{Fault, failure, not_exist, login_required, Result, ok, err, ◌>>=◌, ◌>>◌, reject}
use trae_api.Login.{Credential}
use trae_api.Store.{
  Disk, File, FileKind, regular, symbolic_link, special, Calls, raise, is_not_exist, checked_dir,
}
use trae_api.Store.Codec.{
  ApiCredential, StoredCredential, Encoding, ParsedKey, ecdsa, other_key, decode_credential,
  validate_api, api_view,
}

abbrev pub max_file : ℕ
max_file = 2 ^ 20

-- syscall.Open with O_NOFOLLOW
abbrev pub opened : Option File → Result File
opened none = err not_exist
opened (some f) = elim f.kind [
  | symbolic_link ↦ err (failure "too many levels of symbolic links")
  | regular own ↦ ok f
  | special ↦ ok f
]

-- The mode of the descriptor: a regular file with mode 0600.
abbrev pub is_own : FileKind → Bool
is_own (regular own) = own
is_own _ = false

unfoldable pub read_credential_file : Calls → String → Disk → Result String
unfolding checked_dir
read_credential_file io path disk = do
  checked_dir io disk
  raise io.open_file
  f ← opened (lookup path disk.files)
  raise io.stat
  reject (not (is_own f.kind)) (failure "unsafe credential file type or mode")
  raise io.read
  reject (ltb max_file (len f.content)) (failure "credential file too large")
  ok f.content

-- A key of another kind or curve is refused.
abbrev pub p256_key : Option ParsedKey → Result String
p256_key (some (ecdsa name true)) = ok name
p256_key (some (ecdsa name false)) = err (failure "device private key must be P-256")
p256_key (some other_key) = err (failure "device private key must be P-256")
p256_key none = err (failure "invalid device private key")

abbrev pub require : {A : Type 0} → Option A → Fault → Result A
require none e = err e
require (some a) e = ok a

module _ ⦃go : Encoding⦄ where
  -- The end of Load, once the file is decoded.
  unfoldable pub restore : StoredCredential → Result Credential
  unfolding validate_api
  restore disk = do
    validate_api (api_view disk.version disk.credential)
    reject
        (disk.credential.refresh_token == ""
          || eqb disk.credential.refresh_expires_at 0
          || disk.device_private_key == "")
        (failure "incomplete Auth credential")
    der ← require (go.unbase64 disk.device_private_key) (failure "invalid device private key")
    key ← p256_key (go.parse_key der)
    ok (record disk.credential { device_key = key })

  -- (s *credentialStore) Load
  unfoldable pub load : Calls → String → Disk → Result Credential
  unfolding read_credential_file decode_credential restore
  load io path disk = do
    text ← read_credential_file io path disk
    stored ← decode_credential (go.decode_stored text)
    restore stored

  abbrev missing_login : Fault → Fault
  missing_login e = if is_not_exist e then login_required else e

  abbrev pub read_file : Calls → String → Disk → Result String
  read_file io path disk = elim (read_credential_file io path disk) [
    | ok s ↦ ok s
    | err e ↦ err (missing_login e)
  ]

  -- readAPICredential, at the path that credentialPath gives
  unfoldable pub read_api_credential : Calls → String → ℕ → Disk → Result ApiCredential
  unfolding read_credential_file decode_credential validate_api
  read_api_credential io path now disk = do
    text ← read_file io path disk
    c ← decode_credential (go.decode_api text)
    validate_api c
    reject (leb c.expires_at now) login_required
    ok c
