-- ===== src/Dbms/InPlace/Calls/Users.antt =====
-- The functions of src/dbms/dbms.c change nothing but in the table of their user, and keep all structs in
-- place, whichever calls fail.
use ds_lab_assignment.Prelude.{
  ◌==◌, ◌≡◌, refl, sym, ap, Bool-cases, [], ◌∷◌, ◌++◌, append_assoc, Option, some, ℤ, Bytes, inl,
  inr, if◌then◌else◌, arith,
}
use mathlib.Core.Path.{subst}
use ds_lab_assignment.Util.Codes.{userdata_entry, pend_msgs_table, gen_err_any, dbms_err_not_exists}
use ds_lab_assignment.Util.Types.{Entry, EntryType, Mode}
use ds_lab_assignment.Util.Decimal.{decimal}
use ds_lab_assignment.Dbms.Fs.{
  Fs, Node, enoent, enotdir, eisdir, eexist, enotempty, eio, Result, ok, err, open_dir, FilePath,
  close_piece, split_from, components, walk, settle,
}
use ds_lab_assignment.Dbms.Fs.Laws.{settle-IsLocal}
use ds_lab_assignment.Dbms.Paths.{user_table_path, in_user_table, entry_path}
use ds_lab_assignment.Dbms.Util.{
  changed, Opened, fd, failed, inv_args, opened, open_file, write_entry_file,
}
use ds_lab_assignment.Dbms.Remove.{remove_node, remove_recursive}
use ds_lab_assignment.Dbms.Ops.{read_opened, write_opened, delete_entry, io_op_checked}
use ds_lab_assignment.Dbms.InPlace.{Placed, walk-Placed, settle-KeepsAt}
use ds_lab_assignment.Dbms.InPlace.Removal.{PlacedLeft, remove_node-PlacedLeft}
use ds_lab_assignment.Dbms.InPlace.Calls.{
  Within, Within-same, Within-trans, WithinResult, changed-WithinResult, OpenedWithin,
  open_file-Within, write_entry_file-Within,
}

-- where the table of a user stands, for any name
abbrev pub home : Bytes → FilePath
home username = components (user_table_path username)

close_piece-append : (s : Bytes) (p : FilePath) → close_piece s p ≡ close_piece s [] ++ p
close_piece-append [] p = refl
close_piece-append (c ∷ s) p = refl

split_from-append :
    (s rest piece : Bytes)
    → split_from piece (s ++ b'/' ∷ rest) ≡ split_from piece s ++ split_from [] rest
unfolding split_from
split_from-append [] rest piece = close_piece-append piece (split_from [] rest)
split_from-append (c ∷ s) rest piece = elim (Bool-cases (c == b'/')) [
  | inl slash ↦ ground (
    arith,
    slash,
    split_from-append s rest [],
    close_piece-append piece (split_from [] s),
    close_piece-append piece (split_from [] s ++ split_from [] rest),
    append_assoc (close_piece piece []) (split_from [] s) (split_from [] rest),
  )
  | inr other ↦ ground (arith, other, split_from-append s rest (piece ++ c ∷ []))
]

pub components-in_home :
    (username name : Bytes)
    → components (in_user_table username name) ≡ home username ++ split_from [] name
unfolding components in_user_table user_table_path
components-in_home username name = split_from-append (user_table_path username) name []

-- the path of an entry, whatever its type, stands in its user's table
pub entry_path-home :
    (e : Entry) → (s : FilePath) × (components (entry_path e) ≡ home e.username ++ s)
unfolding entry_path
entry_path-home e = go e.type
  where
    go :
        (t : EntryType)
        → (s : FilePath) × (components (entry_path (record e { type = t })) ≡ home e.username ++ s)
    go EntryType.ud = (_, components-in_home e.username userdata_entry)
    go EntryType.p_msg =
        (_, components-in_home e.username (pend_msgs_table ++ b'/' ∷ decimal e.msg.id))
    go EntryType.other =
        (_, components-in_home e.username (pend_msgs_table ++ b'/' ∷ decimal e.msg.id))

PlacedLeft-some :
    (p : FilePath) (left : Option Node) (n : Node) → PlacedLeft p left → left ≡ some n → Placed p n
PlacedLeft-some p left n h e = subst (PlacedLeft p) e h

pub remove_recursive-Within :
    (path : Bytes) (fs : Fs) → Within (components path) fs (remove_recursive path fs).1
unfolding remove_recursive
remove_recursive-Within path fs = go (walk (components path) fs.root) refl
  where
    done :
        (code : ℤ) (r : Result Fs)
        → WithinResult (components path) fs r
        → Within
            (components path)
            fs
            (elim r as (λ _. ℤ × Fs) [ ok fs' ↦ (code, fs') | err _ ↦ (code, fs) ]).1
    done code (ok fs') h = h
    done code (err e) h = Within-same (components path) fs

    go :
        (r : Result Node)
        → walk (components path) fs.root ≡ r
        → Within
            (components path)
            fs
            (elim r as (λ _. ℤ × Fs) [
              | ok node ↦
                  let r = remove_node fs.faulty path node in
                  elim (changed fs (settle r.left) path) as (λ _. ℤ × Fs) [
                    | ok fs' ↦ (r.result, fs')
                    | err _ ↦ (r.result, fs)
                  ]
              | err enoent ↦
                  (if fs.faulty open_dir path then gen_err_any else dbms_err_not_exists, fs)
              | err _ ↦ (gen_err_any, fs)
            ]).1
    go (ok node) w =
        let r = remove_node fs.faulty path node in
        done r.result (changed fs (settle r.left) path) (
          changed-WithinResult (settle r.left) path fs (settle-IsLocal r.left) λ i.
            settle-KeepsAt r.left (components path) (λ n e.
              PlacedLeft-some (components path) r.left n
                (remove_node-PlacedLeft fs.faulty path (components path) node
                  (walk-Placed (components path) [] fs.root node i.placed w))
                e))
    go (err enoent) w = Within-same (components path) fs
    go (err enotdir) w = Within-same (components path) fs
    go (err eisdir) w = Within-same (components path) fs
    go (err eexist) w = Within-same (components path) fs
    go (err enotempty) w = Within-same (components path) fs
    go (err eio) w = Within-same (components path) fs

read_opened-same :
    (q : FilePath) (e : Entry) (o : Opened) (fs : Fs)
    → OpenedWithin q fs o
    → Within q fs (read_opened e o fs).fs
unfolding read_opened
read_opened-same q e (fd path fs') fs h = h
read_opened-same q e (failed enoent) fs h = Within-same q fs
read_opened-same q e (failed enotdir) fs h = Within-same q fs
read_opened-same q e (failed eisdir) fs h = Within-same q fs
read_opened-same q e (failed eexist) fs h = Within-same q fs
read_opened-same q e (failed enotempty) fs h = Within-same q fs
read_opened-same q e (failed eio) fs h = Within-same q fs
read_opened-same q e inv_args fs h = Within-same q fs

-- a descriptor is one of the path that was opened
abbrev pub OpenedOf : Bytes → Opened → Type 0
OpenedOf path (fd other fs) = other ≡ path
OpenedOf path _ = Unit

opened_lem : (path : Bytes) (r : Result Fs) → OpenedOf path (opened path r)
unfolding opened
opened_lem path (ok fs) = refl
opened_lem path (err e) = tt

pub open_file-OpenedOf :
    (path : Bytes) (mode : Mode) (fs : Fs) → OpenedOf path (open_file path mode fs)
unfolding open_file
open_file-OpenedOf path Mode.read fs = opened_lem path _
open_file-OpenedOf path Mode.create fs = opened_lem path _
open_file-OpenedOf path Mode.modify fs = opened_lem path _
open_file-OpenedOf path Mode.overwrite fs = tt
open_file-OpenedOf path Mode.delete fs = tt
open_file-OpenedOf path Mode.unknown fs = tt

write_opened-Within :
    (e : Entry) (o : Opened) (fs : Fs)
    → OpenedOf (entry_path e) o
    → OpenedWithin (components (entry_path e)) fs o
    → Within (components (entry_path e)) fs (write_opened e o fs).fs
unfolding write_opened
write_opened-Within e (fd path fs') fs same h = Within-trans h (
    subst (λ p. Within (components p) fs' (write_entry_file path e fs').1) same
      (write_entry_file-Within path e fs' (sym (ap components same))))
write_opened-Within e (failed enoent) fs same h = Within-same (components (entry_path e)) fs
write_opened-Within e (failed enotdir) fs same h = Within-same (components (entry_path e)) fs
write_opened-Within e (failed eisdir) fs same h = Within-same (components (entry_path e)) fs
write_opened-Within e (failed eexist) fs same h = Within-same (components (entry_path e)) fs
write_opened-Within e (failed enotempty) fs same h = Within-same (components (entry_path e)) fs
write_opened-Within e (failed eio) fs same h = Within-same (components (entry_path e)) fs
write_opened-Within e inv_args fs same h = Within-same (components (entry_path e)) fs

pub io_op_checked-Within :
    (mode : Mode) (e : Entry) (fs : Fs)
    → Within (components (entry_path e)) fs (io_op_checked mode e fs).fs
unfolding io_op_checked delete_entry
io_op_checked-Within Mode.delete e fs = remove_recursive-Within (entry_path e) fs
io_op_checked-Within Mode.read e fs =
    read_opened-same (components (entry_path e)) e _ fs
      (open_file-Within (entry_path e) Mode.read fs)
io_op_checked-Within Mode.create e fs =
    write_opened-Within e _ fs (open_file-OpenedOf (entry_path e) Mode.create fs)
      (open_file-Within (entry_path e) Mode.create fs)
io_op_checked-Within Mode.modify e fs =
    write_opened-Within e _ fs (open_file-OpenedOf (entry_path e) Mode.modify fs)
      (open_file-Within (entry_path e) Mode.modify fs)
io_op_checked-Within Mode.overwrite e fs = Within-same (components (entry_path e)) fs
io_op_checked-Within Mode.unknown e fs = Within-same (components (entry_path e)) fs
