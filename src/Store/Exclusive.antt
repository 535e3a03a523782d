-- ===== src/Store/Exclusive.antt =====
-- credential_store.go: the writer lock has one owner.
use trae_api.Prelude.{String, List, [], ◌∷◌, true, false, ◌≡◌, ◌≢◌, string_eq}
use trae_api.Fault.{Fault, Result, ok}
use trae_api.Store.{Disk, lock_path, Calls}
use trae_api.Store.Codec.{Encoding}
use trae_api.Store.Owner.{open_credential_store}

module _ ⦃go : Encoding⦄ where
  -- What opening the store at a path says of the locks: a store that is opened took a lock that was
  -- free and holds it now, no other lock changes, and a store that is not opened leaves its lock as it was.
  record Taken (path : String) (before : Disk) (r : Result (Unit {0}) × Disk) : Type 0 where
    free : r.0 ≡ ok tt → before.locked (lock_path path) ≡ false
    taken : r.0 ≡ ok tt → r.1.locked (lock_path path) ≡ true
    others : (p : String) → p ≢ lock_path path → r.1.locked p ≡ before.locked p
    left : r.0 ≢ ok tt → r.1.locked (lock_path path) ≡ before.locked (lock_path path)

  -- Attempts to open stores, one after the other, each with the answers of its calls.
  abbrev pub open_all : List (Calls × (Calls × String)) → Disk → Disk
  open_all [] disk = disk
  open_all ((io, (inner, path)) ∷ rest) disk =
      open_all rest (open_credential_store io inner path disk).1
