-- ===== src/Store.antt =====
-- credential_store.go: the file that Auth writes and that Auth and the API read.
--
-- The disk is the credential directory: whether it is a private directory, its files by path, and
-- which of them are held with Flock. What a system call answers beyond the state of the disk is the
-- record Calls, in which `none` is success. A wrapped error (%w) is the error itself, as
-- errors.Is sees it. A time is its nanoseconds, and 0 is the zero Time.
pub mod Codec
pub mod Read
pub mod Save
pub mod Owner
pub mod Atomic
pub mod RoundTrip
pub mod Rejected
pub mod Exclusive
pub mod Served
use trae_api.Prelude.{
  ℕ, ◌+◌, ◌^◌, String, ◌==◌, ◌<>◌, string_eq, Bool, true, false, not, ◌&&◌, ◌||◌, Option, none,
  some, List, [], ◌∷◌, if◌then◌else◌, ltb, eqb, len, Assoc, insert, lookup, delete,
}
use trae_api.Fault.{Fault, failure, not_exist, Result, ok, err, ◌>>=◌, ◌>>◌, reject}

pub data Directory : Type 0 where
  missing : Directory
  -- not a directory, or one with another mode than 0700
  unsafe : Directory
  private : Directory

pub data FileKind : Type 0 where
  -- a regular file, and whether its mode is 0600
  regular : Bool → FileKind
  symbolic_link : FileKind
  special : FileKind

pub record File : Type 0 where
  pub kind : FileKind
  pub content : String

pub record Disk : Type 0 where
  pub directory : Directory
  pub files : Assoc String File
  pub locked : String → Bool

abbrev pub lock_path : String → String
lock_path path = path <> ".lock"

-- Flock on the lock file of the credential at the path: LOCK_EX or LOCK_UN.
abbrev pub with_lock : Bool → String → Disk → Disk
with_lock b path disk = record disk {
  locked = λ p. if lock_path path == p then b else disk.locked p;
}

-- The answers of the system calls of one operation. `made` is what the directory is after
-- os.MkdirAll, for which ErrExist is a success.
pub record Calls : Type 0 where
  pub lstat : Option Fault
  pub made : Result Directory
  pub open_file : Option Fault
  pub stat : Option Fault
  pub read : Option Fault
  pub create_temp : Option Fault
  pub chmod : Option Fault
  pub write : Option Fault
  pub sync : Option Fault
  pub close : Option Fault
  pub remove : Option Fault
  pub rename : Option Fault
  pub open_dir : Option Fault
  pub sync_dir : Option Fault
  pub random : Option Fault
  pub lock : Option Fault

-- `if err != nil { return err }`
abbrev pub raise : Option Fault → Result (Unit {0})
raise none = ok tt
raise (some e) = err e

abbrev pub is_not_exist : Fault → Bool
is_not_exist not_exist = true
is_not_exist _ = false

-- os.Lstat of the directory, and whether it is a private regular directory.
abbrev pub directory_safe : Directory → Result Bool
directory_safe missing = err not_exist
directory_safe unsafe = ok false
directory_safe private = ok true

abbrev pub lstat_directory : Calls → Directory → Result Bool
lstat_directory io d = raise io.lstat >> directory_safe d

abbrev pub require_safe : Result Bool → Result (Unit {0})
require_safe (ok true) = ok tt
require_safe (ok false) =
    err (failure "credential directory is not a private regular directory (0700)")
require_safe (err e) = err e

abbrev pub is_missing : Result Bool → Bool
is_missing (ok b) = false
is_missing (err e) = is_not_exist e

-- checkedCredentialDir(dir, false)
unfoldable pub checked_dir : Calls → Disk → Result (Unit {0})
checked_dir io disk = require_safe (lstat_directory io disk.directory)

-- checkedCredentialDir(dir, true), which makes a directory that is missing
unfoldable pub created_dir : Calls → Disk → Result (Unit {0}) × Disk
created_dir io disk =
    let first = lstat_directory io disk.directory in
    if is_missing first
    then (elim io.made [
      | err e ↦ (err e, disk)
      | ok d ↦ (require_safe (lstat_directory io d), record disk { directory = d })
    ])
    else (require_safe first, disk)
