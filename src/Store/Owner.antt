-- ===== src/Store/Owner.antt =====
-- credential_store.go: openCredentialStore and Close. The lock file is never removed; Flock
-- on it is what `locked` of the disk says of its path, and every store of the machine shares the disk. A
-- lock goes with the descriptor that took it, which close gives up even when it answers an error.
use trae_api.Prelude.{
  String, Bool, true, false, not, none, some, if◌then◌else◌, lookup, insert, string_eq,
}
use trae_api.Fault.{failure, Result, ok, err, ◌>>=◌, ◌>>◌, reject}
use trae_api.Store.{Disk, lock_path, with_lock, regular, Calls, raise, created_dir}
use trae_api.Store.Codec.{Encoding}
use trae_api.Store.Read.{opened, is_own, load}
use trae_api.Store.Save.{with_files, replaceable}

-- The lock file, made with mode 0600 when it is missing.
abbrev pub lock_entry : String → Disk → Disk
lock_entry path disk = elim (lookup path disk.files) [
  | some f ↦ disk
  | none ↦ with_files disk (insert path (record { kind = regular true; content = "" }) disk.files)
]

abbrev pub check_lock : Calls → String → Disk → Result (Unit {0})
check_lock io path disk = do
  f ← opened (lookup path disk.files)
  reject (not (is_own f.kind)) (failure "unsafe credential writer lock")
  reject (disk.locked path) (failure "credential writer already active")
  raise io.lock

module _ ⦃go : Encoding⦄ where
  -- The last part: the lock is held, and given back when the file cannot be used.
  abbrev pub keep_lock : String → Result (Unit {0}) → Disk → Result (Unit {0}) × Disk
  keep_lock path (ok _) disk = (ok tt, with_lock true path disk)
  keep_lock path (err e) disk = (err e, with_lock false path disk)

  unfoldable pub open_credential_store : Calls → Calls → String → Disk → Result (Unit {0}) × Disk
  unfolding created_dir load
  open_credential_store io inner path disk =
      let made = created_dir io disk in
      let entered = lock_entry (lock_path path) made.1 in
      elim (made.0 >> raise io.open_file) [
        | err e ↦ (err e, made.1)
        | ok _ ↦ elim (check_lock io (lock_path path) entered) [
          | err e ↦ (err e, entered)
          | ok _ ↦ keep_lock path (replaceable (load inner path entered)) entered
        ]
      ]

-- (s *credentialStore) Close, of a store that may have been closed before.
unfoldable pub close_store : Calls → Bool → String → Disk → Result (Unit {0}) × Disk
close_store io held path disk =
    if held then (raise io.lock >> raise io.close, with_lock false path disk) else (ok tt, disk)
