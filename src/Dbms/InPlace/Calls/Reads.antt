-- ===== src/Dbms/InPlace/Calls/Reads.antt =====
-- The structs that the functions of src/dbms/dbms.c read stand where they were asked for, whichever calls
-- fail.
use ds_lab_assignment.Prelude.{◌≡◌, refl, sym, ap, ◌∙◌, [], ◌++◌, Bytes, if_elim}
use mathlib.Core.Path.{subst}
use ds_lab_assignment.Util.Codes.{gen_err_inv_args, dbms_success, dbms_err_any}
use ds_lab_assignment.Util.Types.{Entry, Userdata, EntryType, Mode}
use ds_lab_assignment.Dbms.Fs.{
  Fs, blank, image, Node, file, dir, enoent, enotdir, eisdir, eexist, enotempty, eio, Result, ok,
  err, open_entry, read_entry, FilePath, components, walk,
}
use ds_lab_assignment.Dbms.Paths.{entry_path}
use ds_lab_assignment.Dbms.Util.{
  Opened, fd, failed, inv_args, opened, open_read, attempt, open_file, Reading, read_entry_file,
}
use ds_lab_assignment.Dbms.Ops.{
  IoResult, refused, read_opened, write_opened, io_op_checked, db_io_op_usr_ent,
}
use ds_lab_assignment.Dbms.InPlace.{InPlace, walk-Placed}
use ds_lab_assignment.Dbms.InPlace.Calls.Users.{home, entry_path-home, OpenedOf, open_file-OpenedOf}

-- A struct that is read stands where it was asked for.
read_entry_file-InPlace :
    (path : Bytes) (e : Entry) (fs : Fs)
    → InPlace fs
    → components (entry_path e) ≡ components path
    → components (entry_path (read_entry_file path e fs).entry) ≡ components path
unfolding read_entry_file
read_entry_file-InPlace path e fs i asked =
    if_elim (λ (r : Reading). components (entry_path r.entry) ≡ components path)
      (fs.faulty read_entry path) (λ _. asked) λ _. go (walk (components path) fs.root) refl
  where
    go :
        (r : Result Node)
        → walk (components path) fs.root ≡ r
        → components (
            entry_path
              (elim r as (λ _. Reading) [
                | ok (file (image stored)) ↦ record { result = dbms_success; entry = stored }
                | _ ↦ record { result = dbms_err_any; entry = e }
              ]).entry)
          ≡ components path
    go (ok (file (image stored))) w =
        walk-Placed (components path) [] fs.root (file (image stored)) i.placed w
    go (ok (file blank)) w = asked
    go (ok (dir es)) w = asked
    go (err x) w = asked

-- A descriptor for reading leaves the system as it was.
abbrev OpenedSame : Fs → Opened → Type 0
OpenedSame fs (fd path f) = f ≡ fs
OpenedSame fs _ = Unit

open_file-OpenedSame : (path : Bytes) (fs : Fs) → OpenedSame fs (open_file path Mode.read fs)
unfolding open_file attempt open_read opened
open_file-OpenedSame path fs =
    if_elim (λ r. OpenedSame fs (opened path r)) (fs.faulty (open_entry Mode.read) path) (λ _. tt)
      λ _. go (walk (components path) fs.root)
  where
    go :
        (r : Result Node)
        → OpenedSame fs (opened path (elim r as (λ _. Result Fs) [ ok _ ↦ ok fs | err e ↦ err e ]))
    go (ok n) = refl
    go (err e) = tt

read_opened-InPlace :
    (e : Entry) (o : Opened) (fs : Fs)
    → InPlace fs
    → OpenedOf (entry_path e) o
    → OpenedSame fs o
    → components (entry_path (read_opened e o fs).entry) ≡ components (entry_path e)
unfolding read_opened
read_opened-InPlace e (fd path f) fs i same still =
    read_entry_file-InPlace path e f (subst InPlace (sym still) i) (sym (ap components same))
    ∙ ap components same
read_opened-InPlace e (failed enoent) fs i same still = refl
read_opened-InPlace e (failed enotdir) fs i same still = refl
read_opened-InPlace e (failed eisdir) fs i same still = refl
read_opened-InPlace e (failed eexist) fs i same still = refl
read_opened-InPlace e (failed enotempty) fs i same still = refl
read_opened-InPlace e (failed eio) fs i same still = refl
read_opened-InPlace e inv_args fs i same still = refl

pub read-InPlace :
    (e : Entry) (fs : Fs)
    → InPlace fs
    → components (entry_path (db_io_op_usr_ent e Mode.read fs).entry) ≡ components (entry_path e)
unfolding db_io_op_usr_ent io_op_checked
read-InPlace e fs i = go e.type
  where
    read : components (entry_path (io_op_checked Mode.read e fs).entry) ≡ components (entry_path e)
    read =
        read_opened-InPlace e _ fs i (open_file-OpenedOf (entry_path e) Mode.read fs)
          (open_file-OpenedSame (entry_path e) fs)

    go :
        (t : EntryType)
        → components (
            entry_path
              (elim t as (λ _. IoResult) [
                | EntryType.other ↦ refused gen_err_inv_args e fs
                | _ ↦ io_op_checked Mode.read e fs
              ]).entry)
          ≡ components (entry_path e)
    go EntryType.ud = read
    go EntryType.p_msg = read
    go EntryType.other = refl

-- An entry that stands in the table of the user.
pub record Owned (u : Bytes) (e : Entry) : Type 0 where
  pub below : FilePath
  pub at : components (entry_path e) ≡ home u ++ below

pub Owned-own : (e : Entry) → Owned e.username e
Owned-own e = let (s, at) = entry_path-home e in record { below = s; at = at }

-- What a user's entry holds does not move it.
pub Owned-user :
    {u : Bytes} (e : Entry) (d : Userdata) → Owned u e → Owned u (record e { user = d })
unfolding entry_path
Owned-user e d o = record { below = o.below; at = o.at }

pub read-Owned :
    (u : Bytes) (e : Entry) (fs : Fs)
    → InPlace fs
    → Owned u e
    → Owned u (db_io_op_usr_ent e Mode.read fs).entry
read-Owned u e fs i o = record { below = o.below; at = read-InPlace e fs i ∙ o.at }

-- READ gives the system back as it was.
read_opened-same :
    (e : Entry) (o : Opened) (fs : Fs) → OpenedSame fs o → (read_opened e o fs).fs ≡ fs
unfolding read_opened
read_opened-same e (fd path f) fs still = still
read_opened-same e (failed enoent) fs still = refl
read_opened-same e (failed enotdir) fs still = refl
read_opened-same e (failed eisdir) fs still = refl
read_opened-same e (failed eexist) fs still = refl
read_opened-same e (failed enotempty) fs still = refl
read_opened-same e (failed eio) fs still = refl
read_opened-same e inv_args fs still = refl

pub read-same : (e : Entry) (fs : Fs) → (db_io_op_usr_ent e Mode.read fs).fs ≡ fs
unfolding db_io_op_usr_ent io_op_checked
read-same e fs = go e.type
  where
    read : (io_op_checked Mode.read e fs).fs ≡ fs
    read = read_opened-same e _ fs (open_file-OpenedSame (entry_path e) fs)

    go :
        (t : EntryType)
        → (elim t as (λ _. IoResult) [
          | EntryType.other ↦ refused gen_err_inv_args e fs
          | _ ↦ io_op_checked Mode.read e fs
        ]).fs
          ≡ fs
    go EntryType.ud = read
    go EntryType.p_msg = read
    go EntryType.other = refl

-- MODIFY gives the struct back as it was.
write_opened-entry : (e : Entry) (o : Opened) (fs : Fs) → (write_opened e o fs).entry ≡ e
unfolding write_opened
write_opened-entry e (fd path f) fs = refl
write_opened-entry e (failed enoent) fs = refl
write_opened-entry e (failed enotdir) fs = refl
write_opened-entry e (failed eisdir) fs = refl
write_opened-entry e (failed eexist) fs = refl
write_opened-entry e (failed enotempty) fs = refl
write_opened-entry e (failed eio) fs = refl
write_opened-entry e inv_args fs = refl

pub modify-entry : (e : Entry) (fs : Fs) → (db_io_op_usr_ent e Mode.modify fs).entry ≡ e
unfolding db_io_op_usr_ent io_op_checked
modify-entry e fs = go e.type
  where
    go :
        (t : EntryType)
        → (elim t as (λ _. IoResult) [
          | EntryType.other ↦ refused gen_err_inv_args e fs
          | _ ↦ io_op_checked Mode.modify e fs
        ]).entry
          ≡ e
    go EntryType.ud = write_opened-entry e _ fs
    go EntryType.p_msg = write_opened-entry e _ fs
    go EntryType.other = refl
