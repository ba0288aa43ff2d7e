-- ===== src/Dbms/Tables.antt =====
-- `db_user_exists`, `db_creat_usr_tbl` and `db_del_usr_tbl` of src/dbms/dbms.c against the accounts
-- that the database holds.
use ds_lab_assignment.Prelude.{◌≡◌, refl, ◌∙◌, [], ◌∷◌, none, Bytes, arith, str_eq}
use ds_lab_assignment.Util.Codes.{
  gen_success, dbms_success, dbms_err_exists, c_true, c_false, db_dir, userdata_entry,
  pend_msgs_table,
}
use ds_lab_assignment.Util.Types.{Entry, EntryType}
use ds_lab_assignment.Dbms.Fs.{
  components, Fs, Node, dir, Entries, end, enoent, ok, err, walk, child, drop_child, settle,
}
use ds_lab_assignment.Dbms.Fs.Laws.{Apart, walk-append, settle-IsLocal, settle-Leaves}
use ds_lab_assignment.Dbms.Files.{no_child_of_walk}
use ds_lab_assignment.Dbms.Paths.{table_name, user_table_path, in_user_table}
use ds_lab_assignment.Dbms.Paths.Laws.{NoSlash, components-user_table_path, components-pend_table}
use ds_lab_assignment.Dbms.Remove.{remove_recursive}
use ds_lab_assignment.Dbms.Remove.Laws.{NoFaults, remove_node_lem}
use ds_lab_assignment.Dbms.Edited.{NoFaults-Edited, changed-Edited}
use ds_lab_assignment.Dbms.Directories.{open_there, open_missing, make_missing}
use ds_lab_assignment.Dbms.Account.{
  table_at, data_at, pend_at, Account, Unknown, SameOthers, Edited-SameOthers,
}
use ds_lab_assignment.Dbms.Ops.{db_user_exists, db_creat_usr_tbl, db_del_usr_tbl}
use ds_lab_assignment.Dbms.Ops.Laws.{create_userdata}

pub data-pend-Apart : (u : Bytes) → Apart (data_at u) (pend_at u)
unfolding str_eq
data-pend-Apart u = λ _ _ same. absurd (cc)

pend-data-Apart : (u : Bytes) → Apart (pend_at u) (data_at u)
unfolding str_eq
pend-data-Apart u = λ _ _ same. absurd (cc)

-- nothing stands in an empty table
in_empty_table :
    (u name : Bytes) (t : Node)
    → walk (table_at u) t ≡ ok (dir end)
    → walk (db_dir ∷ table_name u ∷ name ∷ []) t ≡ err enoent
in_empty_table u name t w =
    walk-append (table_at u) (name ∷ []) t (dir end) w ∙ (unfold walk child in refl)

module _ (fs : Fs) (sound : NoFaults fs.faulty) (u : Bytes) (name : NoSlash u) where
  -- `db_user_exists` answers TRUE for a user with a table, and FALSE for one without.
  pub db_user_exists_lem :
      ((e : Entry) (pend : Entries) → Account fs u e pend → db_user_exists u fs ≡ c_true)
      × (Unknown fs u → db_user_exists u fs ≡ c_false)
  unfolding db_user_exists
  db_user_exists_lem =
      let at = components-user_table_path u name in
      (
        λ e pend a. ground (
          arith,
          open_there fs sound (user_table_path u) (table_at u) at a.table_entries a.table,
        ),
        λ a. ground (arith, open_missing fs sound (user_table_path u) (table_at u) at a.absent),
      )

module _ (fs : Fs) (sound : NoFaults fs.faulty) (e : Entry) (name : NoSlash e.username)
    (is_ud : e.type ≡ EntryType.ud) where
  abbrev u : Bytes
  u = e.username

  -- Where no call of the file system fails and the username holds no slash, `db_creat_usr_tbl`
  -- for a user without a table succeeds. The user then has an account with the given entry and no
  -- pending message, nothing has changed in the tables of other users, and the calls still do not
  -- fail.
  pub db_creat_usr_tbl_lem :
      Unknown fs e.username
      → (fs' : Fs) × (db_creat_usr_tbl e fs ≡ (dbms_success, fs'))
        × Account fs' e.username e end
        × SameOthers e.username fs fs'
        × NoFaults fs'.faulty
  unfolding db_creat_usr_tbl
  db_creat_usr_tbl_lem a =
      let made =
        make_missing fs (user_table_path u) (db_dir ∷ []) (table_name u) a.tables sound
          (components-user_table_path u name) a.db a.absent in
      let sound1 = NoFaults-Edited made.edited sound in
      let put =
        create_userdata made.after sound1 e name is_ud end made.edited.here
          (in_empty_table u userdata_entry made.after.root made.edited.here) in
      let sound2 = NoFaults-Edited put.edited sound1 in
      let (tbl, table2) =
        put.edited.above (table_at u) [] userdata_entry end refl made.edited.here in
      let pend =
        make_missing put.after (in_user_table u pend_msgs_table) (table_at u) pend_msgs_table tbl
          sound2 (components-pend_table u name) table2
          (put.edited.apart (pend_at u) (data-pend-Apart u)
            ∙ in_empty_table u pend_msgs_table made.after.root made.edited.here) in
      let (tbl', table3) = pend.edited.above (table_at u) [] pend_msgs_table tbl refl table2 in
      let (us1, db1) = made.edited.above (db_dir ∷ []) [] (table_name u) a.tables refl a.db in
      let (us2, db2) =
        put.edited.above (db_dir ∷ []) (userdata_entry ∷ []) (table_name u) us1 refl db1 in
      let (us3, db3) =
        pend.edited.above (db_dir ∷ []) (pend_msgs_table ∷ []) (table_name u) us2 refl db2 in
      (
        pend.after,
        ground (arith, made.result, put.result, pend.result),
        record {
          tables = us3;
          db = db3;
          table_entries = tbl';
          table = table3;
          stored = pend.edited.apart (data_at u) (pend-data-Apart u) ∙ put.edited.here;
          pending = pend.edited.here;
        },
        λ v q ne.
            Edited-SameOthers u (pend_msgs_table ∷ []) pend.edited v q ne
            ∙ (Edited-SameOthers u (userdata_entry ∷ []) put.edited v q ne
                ∙ Edited-SameOthers u [] made.edited v q ne),
        NoFaults-Edited pend.edited sound2,
      )

-- `db_creat_usr_tbl` for a user with a table answers DBMS_ERR_EXISTS and changes nothing.
pub db_creat_usr_tbl_exists :
    (fs : Fs) (e old : Entry) (pend : Entries)
    → NoFaults fs.faulty
    → NoSlash e.username
    → Account fs e.username old pend
    → db_creat_usr_tbl e fs ≡ (dbms_err_exists, fs)
unfolding db_creat_usr_tbl
db_creat_usr_tbl_exists fs e old _ sound name a = ground (
  arith,
  open_there fs sound (user_table_path e.username) (table_at e.username)
      (components-user_table_path e.username name) a.table_entries a.table,
)

-- The table of a user is removed, under any path that leads to it.
pub remove_table :
    (path : Bytes) (fs : Fs) (u : Bytes) (e : Entry) (pend : Entries)
    → components path ≡ table_at u
    → NoFaults fs.faulty
    → Account fs u e pend
    → (fs' : Fs) × (remove_recursive path fs ≡ (gen_success, fs'))
      × Unknown fs' u
      × SameOthers u fs fs'
      × NoFaults fs'.faulty
unfolding remove_recursive
remove_table path fs u e _ at sound a =
    let (fs', made, edited) =
      changed-Edited fs path (db_dir ∷ []) (table_name u) a.tables
        (drop_child (table_name u) a.tables) (settle-IsLocal none) (settle-Leaves none) at a.db
        (unfold settle in refl) in
    let (tables, db) = edited.above (db_dir ∷ []) [] (table_name u) a.tables refl a.db in
    (
      fs',
      ground (arith, at, a.table, made, remove_node_lem sound path (dir a.table_entries)),
      record { tables = tables; db = db; absent = edited.here },
      Edited-SameOthers u [] edited,
      NoFaults-Edited edited sound,
    )

-- Where no call of the file system fails and the username holds no slash, `db_del_usr_tbl` for a
-- user with an account succeeds. Nothing of the user's table is left, with pending messages or
-- without, nothing has changed in the tables of other users, and the calls still do not fail.
pub db_del_usr_tbl_lem :
    (fs : Fs) (u : Bytes) (e : Entry) (pend : Entries)
    → NoFaults fs.faulty
    → NoSlash u
    → Account fs u e pend
    → (fs' : Fs) × (db_del_usr_tbl u fs ≡ (gen_success, fs'))
      × Unknown fs' u
      × SameOthers u fs fs'
      × NoFaults fs'.faulty
unfolding db_del_usr_tbl
db_del_usr_tbl_lem fs u e pend sound name a =
    remove_table (user_table_path u) fs u e pend (components-user_table_path u name) sound a

-- a user without a table has no entry
pub no_data : (fs : Fs) (u : Bytes) → Unknown fs u → walk (data_at u) fs.root ≡ err enoent
no_data fs u a =
    let absent =
      no_child_of_walk (db_dir ∷ []) (table_name u) fs.root enoent a.tables a.db a.absent in
    walk-append (db_dir ∷ []) (table_name u ∷ userdata_entry ∷ []) fs.root (dir a.tables) a.db
    ∙ (unfold walk in ground (arith, absent))
