-- ===== src/Dbms/InPlace/Calls/Directories.antt =====
-- `open_directory` of src/dbms/dbmsUtil.c changes nothing outside its path and keeps all structs in place.
use ds_lab_assignment.Prelude.{◌≡◌, refl, sym, Bool, true, false, Bytes, if_elim, if◌then◌else◌}
use mathlib.Core.Path.{subst}
use ds_lab_assignment.Util.Types.{Mode}
use ds_lab_assignment.Dbms.Fs.{
  Fs, dir, Entries, end, enoent, enotdir, eisdir, eexist, enotempty, eio, Result, ok, err, make_dir,
  components, create,
}
use ds_lab_assignment.Dbms.Fs.Laws.{create-IsLocal}
use ds_lab_assignment.Dbms.Util.{
  changed, attempt, opendir, Directory, no_directory, reopen_directory, make_directory,
  open_or_make, open_directory,
}
use ds_lab_assignment.Util.Codes.{dbms_success, dbms_err_any, dbms_err_exists, dbms_err_not_exists}
use ds_lab_assignment.Dbms.InPlace.{create-KeepsAt}
use ds_lab_assignment.Dbms.InPlace.Calls.{
  Within, Within-same, WithinResult, changed-WithinResult, attempt-WithinResult,
}

-- `open_directory` may make a directory, and its result may still be an error.
made-Within :
    (path : Bytes) (fs : Fs)
    → WithinResult
        (components path)
        fs
        (attempt fs make_dir path (changed fs (create fs.place (dir end)) path))
made-Within path fs = attempt-WithinResult (components path) fs make_dir path _ (
    changed-WithinResult (create fs.place (dir end)) path fs (create-IsLocal fs.place (dir end))
      λ _. create-KeepsAt fs.place (dir end) (components path) tt)

reopen-same : (path : Bytes) (fs : Fs) → (reopen_directory path fs).fs ≡ fs
unfolding reopen_directory
reopen-same path fs = go (opendir path fs)
  where
    go :
        (r : Result Entries)
        → (elim r as (λ _. Directory) [
          | ok es ↦ record { result = dbms_success; entries = es; fs = fs }
          | err e ↦ no_directory dbms_err_any fs
        ]).fs
          ≡ fs
    go (ok es) = refl
    go (err e) = refl

make_directory-Within :
    (path : Bytes) (fs : Fs) → Within (components path) fs (make_directory path fs).fs
unfolding make_directory
make_directory-Within path fs =
    go (attempt fs make_dir path (changed fs (create fs.place (dir end)) path))
      (made-Within path fs)
  where
    go :
        (r : Result Fs)
        → WithinResult (components path) fs r
        → Within
            (components path)
            fs
            (elim r as (λ _. Directory) [
              | ok fs' ↦ reopen_directory path fs'
              | err e ↦ no_directory dbms_err_any fs
            ]).fs
    go (ok fs') h = subst (Within (components path) fs) (sym (reopen-same path fs')) h
    go (err e) h = Within-same (components path) fs

open_or_make-Within :
    (creates makes : Bool) (path : Bytes) (fs : Fs)
    → Within (components path) fs (open_or_make creates makes path fs).fs
unfolding open_or_make
open_or_make-Within creates makes path fs = go (opendir path fs)
  where
    go :
        (r : Result Entries)
        → Within
            (components path)
            fs
            (elim r as (λ _. Directory) [
              | ok es ↦ record {
                result = if creates then dbms_err_exists else dbms_success;
                entries = es;
                fs = fs;
              }
              | err enoent ↦
                  if makes then make_directory path fs else no_directory dbms_err_not_exists fs
              | err _ ↦ no_directory dbms_err_any fs
            ]).fs
    go (ok es) = Within-same (components path) fs
    go (err enoent) =
        if_elim (λ (d : Directory). Within (components path) fs d.fs) makes
          (λ _. make_directory-Within path fs) (λ _. Within-same (components path) fs)
    go (err enotdir) = Within-same (components path) fs
    go (err eisdir) = Within-same (components path) fs
    go (err eexist) = Within-same (components path) fs
    go (err enotempty) = Within-same (components path) fs
    go (err eio) = Within-same (components path) fs

pub open_directory-Within :
    (path : Bytes) (mode : Mode) (fs : Fs)
    → Within (components path) fs (open_directory path mode fs).fs
unfolding open_directory
open_directory-Within path Mode.create fs = open_or_make-Within true true path fs
open_directory-Within path Mode.overwrite fs = open_or_make-Within false true path fs
open_directory-Within path Mode.read fs = open_or_make-Within false false path fs
open_directory-Within path Mode.modify fs = Within-same (components path) fs
open_directory-Within path Mode.delete fs = Within-same (components path) fs
open_directory-Within path Mode.unknown fs = Within-same (components path) fs
