-- ===== src/Dbms/InPlace/Calls.antt =====
-- The functions of src/dbms change nothing outside their path and keep all structs in place, whichever
-- calls fail.
pub mod Directories
pub mod Users
pub mod Tables
pub mod Reads
pub mod Letters
use ds_lab_assignment.Prelude.{
  ◌≡◌, refl, sym, ap, ◌∙◌, ◌⊎◌, Bool, true, false, Bool-cases, List, [], ◌∷◌, ◌++◌, Option, none,
  some, Option-cases, ℤ, is_neg, Bytes, inl, inr, if_elim, if◌then◌else◌, str_eq, arith,
}
use mathlib.Core.Path.{subst}
use ds_lab_assignment.Util.Types.{Entry, EntryType, Mode}
use ds_lab_assignment.Dbms.Fs.{
  Fs, FileData, blank, image, Node, file, dir, Entries, end, Errno, enoent, enotdir, eisdir, eexist,
  enotempty, eio, Result, ok, err, Syscall, open_dir, make_dir, open_entry, write_entry, FilePath,
  components, walk, Change, change, create, rewrite, settle,
}
use ds_lab_assignment.Dbms.Fs.Laws.{
  IsLocal, create-IsLocal, rewrite-IsLocal, settle-IsLocal, Apart, walk-change-Apart,
}
use ds_lab_assignment.Dbms.Paths.{entry_path}
use ds_lab_assignment.Dbms.Util.{
  changed, attempt, Opened, fd, failed, inv_args, opened, open_read, open_file, opendir, Directory,
  no_directory, reopen_directory, make_directory, open_or_make, open_directory, write_entry_file,
}
use ds_lab_assignment.Dbms.Remove.{remove_node, remove_recursive}
use ds_lab_assignment.Dbms.Ops.{db_io_op_usr_ent}
use ds_lab_assignment.Util.Codes.{dbms_success, dbms_err_any, dbms_err_exists, dbms_err_not_exists}
use ds_lab_assignment.Dbms.InPlace.{
  Placed, InPlace, KeepsAt, change-Placed, walk-Placed, create-KeepsAt, rewrite-KeepsAt,
  settle-KeepsAt,
}
use ds_lab_assignment.Dbms.InPlace.Removal.{PlacedLeft, remove_node-PlacedLeft}

-- Between the two systems nothing changed but at the path and below it, and what was in place still is.
pub record Within (q : FilePath) (fs fs' : Fs) : Type 0 where
  pub in_place : InPlace fs → InPlace fs'
  pub apart : (r : FilePath) → Apart q r → walk r fs'.root ≡ walk r fs.root

pub Within-same : (q : FilePath) (fs : Fs) → Within q fs fs
Within-same q fs = record { in_place = λ h. h; apart = λ r a. refl }

pub Within-trans : {q : FilePath} {a b c : Fs} → Within q a b → Within q b c → Within q a c
Within-trans f g = record {
  in_place = λ h. g.in_place (f.in_place h);
  apart = λ r p. g.apart r p ∙ f.apart r p;
}

Apart-append : (q s r : FilePath) → Apart q r → Apart (q ++ s) r
Apart-append [] s r a = absurd a
Apart-append (x ∷ q) s [] a = absurd a
Apart-append (x ∷ q) s (y ∷ r) a = λ same. Apart-append q s r (a same)

pub Within-above : {fs fs' : Fs} (q s : FilePath) → Within (q ++ s) fs fs' → Within q fs fs'
Within-above q s w = record {
  in_place = w.in_place;
  apart = λ r a. w.apart r (Apart-append q s r a);
}

-- the same for a call that may fail
abbrev pub WithinResult : FilePath → Fs → Result Fs → Type 0
WithinResult q fs (ok fs') = Within q fs fs'
WithinResult q fs (err e) = Unit

pub changed-WithinResult :
    (f : Change) (path : Bytes) (fs : Fs)
    → IsLocal f
    → (InPlace fs → KeepsAt f (components path))
    → WithinResult (components path) fs (changed fs f path)
unfolding changed
changed-WithinResult f path fs l k = go (change f (components path) fs.root) refl
  where
    go :
        (r : Result Node)
        → change f (components path) fs.root ≡ r
        → WithinResult
            (components path)
            fs
            (elim r [ ok root ↦ ok (record fs { root = root }) | err e ↦ err e ])
    go (err e) h = tt
    go (ok t) h = record {
      in_place =
          λ i. record { placed = change-Placed f (components path) [] fs.root t (k i) i.placed h };
      apart = λ r a. walk-change-Apart l (components path) r fs.root t a h;
    }

pub attempt-WithinResult :
    (q : FilePath) (fs : Fs) (call : Syscall) (path : Bytes) (r : Result Fs)
    → WithinResult q fs r
    → WithinResult q fs (attempt fs call path r)
unfolding attempt
attempt-WithinResult q fs call path r h =
    if_elim (WithinResult q fs) (fs.faulty call path) (λ _. tt) (λ _. h)

pub write_entry_file-Within :
    (path : Bytes) (e : Entry) (fs : Fs)
    → components (entry_path e) ≡ components path
    → Within (components path) fs (write_entry_file path e fs).1
unfolding write_entry_file
write_entry_file-Within path e fs own =
    go (attempt fs write_entry path (changed fs (rewrite (image e)) path)) (
      attempt-WithinResult (components path) fs write_entry path _ (
        changed-WithinResult (rewrite (image e)) path fs (rewrite-IsLocal (image e))
          λ _. rewrite-KeepsAt (image e) (components path) own))
  where
    go :
        (r : Result Fs)
        → WithinResult (components path) fs r
        → Within
            (components path)
            fs
            (elim r as (λ _. ℤ × Fs) [
              | ok fs' ↦ (dbms_success, fs')
              | err _ ↦ (dbms_err_any, fs)
            ]).1
    go (ok fs') h = h
    go (err e) h = Within-same (components path) fs

abbrev pub OpenedWithin : FilePath → Fs → Opened → Type 0
OpenedWithin q fs (fd path fs') = Within q fs fs'
OpenedWithin q fs _ = Unit

opened-Within :
    (q : FilePath) (fs : Fs) (path : Bytes) (r : Result Fs)
    → WithinResult q fs r
    → OpenedWithin q fs (opened path r)
unfolding opened
opened-Within q fs path (ok fs') h = h
opened-Within q fs path (err e) h = tt

open_read-Within : (q : FilePath) (path : Bytes) (fs : Fs) → WithinResult q fs (open_read path fs)
unfolding open_read
open_read-Within q path fs = go (walk (components path) fs.root)
  where
    go :
        (r : Result Node)
        → WithinResult q fs (elim r as (λ _. Result Fs) [ ok _ ↦ ok fs | err e ↦ err e ])
    go (ok n) = Within-same q fs
    go (err e) = tt

pub open_file-Within :
    (path : Bytes) (mode : Mode) (fs : Fs)
    → OpenedWithin (components path) fs (open_file path mode fs)
unfolding open_file
open_file-Within path Mode.read fs = opened-Within (components path) fs path _ (
    attempt-WithinResult (components path) fs (open_entry Mode.read) path (open_read path fs)
      (open_read-Within (components path) path fs))
open_file-Within path Mode.create fs = opened-Within (components path) fs path _ (
    attempt-WithinResult (components path) fs (open_entry _) path _ (
      changed-WithinResult (create fs.place (file blank)) path fs
        (create-IsLocal fs.place (file blank))
        λ _. create-KeepsAt fs.place (file blank) (components path) tt))
open_file-Within path Mode.modify fs = opened-Within (components path) fs path _ (
    attempt-WithinResult (components path) fs (open_entry _) path _ (
      changed-WithinResult (rewrite blank) path fs (rewrite-IsLocal blank)
        λ _. rewrite-KeepsAt blank (components path) tt))
open_file-Within path Mode.overwrite fs = tt
open_file-Within path Mode.delete fs = tt
open_file-Within path Mode.unknown fs = tt
