-- ===== src/Services/Users/Unwritten.antt =====
-- DISCONNECT of src/services.c where the user's entry cannot be written back: db_io_op_usr_ent of
-- src/dbms/dbms.c has emptied its file before.
use ds_lab_assignment.Prelude.{
  ℕ, ◌≡◌, ◌≢◌, refl, true, false, [], ◌∷◌, ◌++◌, some, Bytes, is_neg, arith,
}
use ds_lab_assignment.Util.Codes.{dbms_err_any, userdata_entry, status_cn}
use ds_lab_assignment.Util.Types.{Entry, EntryType, Mode, Request}
use ds_lab_assignment.Dbms.Fs.{
  Fs, blank, image, file, Entries, open_entry, read_entry, write_entry, ok, walk, rewrite,
  put_child,
}
use ds_lab_assignment.Dbms.Fs.Laws.{rewrite-IsLocal, rewrite-Leaves}
use ds_lab_assignment.Dbms.Paths.{entry_path, in_user_table}
use ds_lab_assignment.Dbms.Paths.Laws.{NoSlash, components-userdata}
use ds_lab_assignment.Dbms.Remove.Laws.{NoFaults}
use ds_lab_assignment.Dbms.Edited.{Edited, changed-Edited}
use ds_lab_assignment.Dbms.Readable.{read_ud}
use ds_lab_assignment.Dbms.Files.{child_of_walk}
use ds_lab_assignment.Dbms.Util.{open_file, write_entry_file, read_entry_file}
use ds_lab_assignment.Dbms.Account.{table_at, data_at, Account}
use ds_lab_assignment.Dbms.Ops.{db_io_op_usr_ent}
use ds_lab_assignment.Services.World.{World, Stack, user_entry, receive}
use ds_lab_assignment.Services.Pending.{aux_connect_send_pend_msgs}
use ds_lab_assignment.Services.Users.{srv_disconnect, srv_connect_request}
use ds_lab_assignment.Services.Users.Sessions.{offline}
use ds_lab_assignment.Services.Users.Laws.{sent_name, after_name}

-- Of the calls on the user's entry, opening and reading succeed, and writing fails.
pub record WriteFails (fs : Fs) (username : Bytes) : Type 0 where
  pub opens :
      (mode : Mode) → fs.faulty (open_entry mode) (in_user_table username userdata_entry) ≡ false
  pub reads : fs.faulty read_entry (in_user_table username userdata_entry) ≡ false
  pub writes : fs.faulty write_entry (in_user_table username userdata_entry) ≡ true

-- MODIFY of the entry leaves an empty file.
modify_unwritten :
    (fs : Fs) (e old : Entry) (pend : Entries)
    → WriteFails fs e.username
    → NoSlash e.username
    → e.type ≡ EntryType.ud
    → Account fs e.username old pend
    → (fs' : Fs) × (db_io_op_usr_ent e Mode.modify fs
        ≡ record { result = dbms_err_any; entry = e; fs = fs' })
      × Edited fs fs' (data_at e.username) (some (file blank))
unfolding db_io_op_usr_ent entry_path open_file write_entry_file
modify_unwritten fs e old _ f plain is_ud a =
    let u = e.username in
    let path = in_user_table u userdata_entry in
    let there =
      child_of_walk (table_at u) userdata_entry fs.root (file (image old)) a.table_entries a.table
        a.stored in
    let cut : rewrite blank userdata_entry a.table_entries
        ≡ ok (put_child userdata_entry (file blank) a.table_entries) =
      unfold rewrite in ground (arith, there) in
    let (fs', made, edited) =
      changed-Edited fs path (table_at u) userdata_entry a.table_entries
        (put_child userdata_entry (file blank) a.table_entries) (rewrite-IsLocal blank)
        (rewrite-Leaves blank) (components-userdata u plain) a.table cut in
    let still : fs'.faulty write_entry path ≡ true = cc (edited.faults, f.writes) in
    (fs', ground (arith, is_ud, f.opens Mode.modify, made, still), edited)

-- READ of an empty file fails, and gives the struct back as it was.
pub read_blank :
    (fs : Fs) (given : Entry)
    → NoFaults fs.faulty
    → NoSlash given.username
    → given.type ≡ EntryType.ud
    → walk (data_at given.username) fs.root ≡ ok (file blank)
    → db_io_op_usr_ent given Mode.read fs ≡ record { result = dbms_err_any; entry = given; fs = fs }
unfolding db_io_op_usr_ent entry_path open_file read_entry_file
read_blank fs given sound plain is_ud empty = ground (
  arith,
  is_ud,
  components-userdata given.username plain,
  empty,
  sound (open_entry Mode.read) (in_user_table given.username userdata_entry),
  sound read_entry (in_user_table given.username userdata_entry),
)

-- the same database once its calls do not fail any more
abbrev pub repaired : Fs → Fs
repaired fs = record fs { faulty = λ _ _. false }

module _ (s : Stack) (request : Request) (w : World) (e : Entry) (pend : Entries)
    (plain : NoSlash e.username) (is_ud : e.type ≡ EntryType.ud) where
  -- A connected user DISCONNECTs, and can be answered; the username has no slash. Of the calls on the
  -- user's entry, writing fails. DISCONNECT answers 3, and the entry is lost: even when no call fails
  -- any more, each later CONNECT of the user, with any port, stack and fuel and from a client who can be
  -- answered, answers 3, changes nothing in the database and sends no pending message.
  pub srv_connect-srv_disconnect :
      is_neg (receive request.username w).result ≢ true
      → sent_name request w ≡ e.username
      → Account w.fs e.username e pend
      → e.user.status ≡ status_cn
      → WriteFails w.fs e.username
      → w.writable ≡ true
      → (later : Stack) (fuel : ℕ) (port : Bytes) (v : World) → v.writable ≡ true
      → (fs' : Fs) × (srv_disconnect s request w
          ≡ record (after_name request w) { fs = fs'; replies = w.replies ++ (3 ∷ []) ∷ [] })
        × (srv_connect_request later fuel e.username port (record v { fs = repaired fs' })
            ≡ some (record v { fs = repaired fs'; replies = v.replies ++ (3 ∷ []) ∷ [] }))
  unfolding srv_disconnect srv_connect_request aux_connect_send_pend_msgs
  srv_connect-srv_disconnect read sent a on f can later fuel port v may =
      let (fs', unwritten, edited) = modify_unwritten w.fs (offline e) e pend f plain is_ud a in
      let lost =
        read_blank (repaired fs') (user_entry later.entry e.username) (λ _ _. refl) plain refl
          edited.here in
      (
        fs',
        ground (
          arith,
          read_ud w.fs (user_entry s.entry e.username) plain refl
              (record { opens = f.opens Mode.read; reads = f.reads }) e a.stored,
          unwritten,
          read,
          sent,
          on,
          can,
        ),
        ground (arith, lost, may),
      )
