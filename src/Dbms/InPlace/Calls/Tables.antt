-- ===== src/Dbms/InPlace/Calls/Tables.antt =====
-- The functions that the services call: each stays in the table of the user whom its struct names,
-- whichever calls fail.
use ds_lab_assignment.Prelude.{ℤ, is_neg, int_eq, Bytes, if_elim}
use mathlib.Core.Path.{subst}
use ds_lab_assignment.Util.Codes.{pend_msgs_table, gen_err_inv_args, dbms_err_exists}
use ds_lab_assignment.Util.Types.{Entry, EntryType, Mode}
use ds_lab_assignment.Dbms.Fs.{Fs, components}
use ds_lab_assignment.Dbms.Paths.{user_table_path, in_user_table, entry_path}
use ds_lab_assignment.Dbms.Util.{open_directory}
use ds_lab_assignment.Dbms.Ops.{
  IoResult, refused, io_op_checked, db_io_op_usr_ent, create_pend_table, fill_user_table,
  db_creat_usr_tbl, db_del_usr_tbl,
}
use ds_lab_assignment.Dbms.InPlace.Calls.Directories.{open_directory-Within}
use ds_lab_assignment.Dbms.InPlace.Calls.{Within, Within-same, Within-trans, Within-above}
use ds_lab_assignment.Dbms.InPlace.Calls.Users.{
  home, components-in_home, entry_path-home, remove_recursive-Within, io_op_checked-Within,
}

pub io_op-Within :
    (e : Entry) (mode : Mode) (fs : Fs)
    → Within (components (entry_path e)) fs (db_io_op_usr_ent e mode fs).fs
unfolding db_io_op_usr_ent
io_op-Within e mode fs = go e.type
  where
    go :
        (t : EntryType)
        → Within
            (components (entry_path e))
            fs
            (elim t as (λ _. IoResult) [
              | EntryType.other ↦ refused gen_err_inv_args e fs
              | _ ↦ io_op_checked mode e fs
            ]).fs
    go EntryType.ud = io_op_checked-Within mode e fs
    go EntryType.p_msg = io_op_checked-Within mode e fs
    go EntryType.other = Within-same (components (entry_path e)) fs

pub io_op-home :
    (e : Entry) (mode : Mode) (fs : Fs)
    → Within (home e.username) fs (db_io_op_usr_ent e mode fs).fs
io_op-home e mode fs =
    let (s, at) = entry_path-home e in
    Within-above (home e.username) s
      (subst (λ q. Within q fs (db_io_op_usr_ent e mode fs).fs) at (io_op-Within e mode fs))

create_pend_table-home :
    (e : Entry) (fs : Fs) → Within (home e.username) fs (create_pend_table e fs).1
unfolding create_pend_table
create_pend_table-home e fs =
    let path = in_user_table e.username pend_msgs_table in
    Within-above (home e.username) _ (
      subst (λ q. Within q fs (open_directory path Mode.create fs).fs)
        (components-in_home e.username pend_msgs_table) (open_directory-Within path Mode.create fs))

fill_user_table-home : (e : Entry) (fs : Fs) → Within (home e.username) fs (fill_user_table e fs).1
unfolding fill_user_table
fill_user_table-home e fs =
    let r = db_io_op_usr_ent e Mode.create fs in
    let w = io_op-home e Mode.create fs in
    if_elim (λ (x : ℤ × Fs). Within (home e.username) fs x.1) (is_neg r.result) (λ _. w)
      λ _. Within-trans w (create_pend_table-home e r.fs)

pub db_creat_usr_tbl-home :
    (e : Entry) (fs : Fs) → Within (home e.username) fs (db_creat_usr_tbl e fs).1
unfolding db_creat_usr_tbl
db_creat_usr_tbl-home e fs =
    let d = open_directory (user_table_path e.username) Mode.create fs in
    let w = open_directory-Within (user_table_path e.username) Mode.create fs in
    let P = λ (x : ℤ × Fs). Within (home e.username) fs x.1 in
    if_elim P (int_eq d.result dbms_err_exists) (λ _. w)
      λ _. if_elim P (is_neg d.result) (λ _. w) λ _. Within-trans w (fill_user_table-home e d.fs)

pub db_del_usr_tbl-home :
    (username : Bytes) (fs : Fs) → Within (home username) fs (db_del_usr_tbl username fs).1
unfolding db_del_usr_tbl
db_del_usr_tbl-home username fs = remove_recursive-Within (user_table_path username) fs
