-- ===== src/Services/Users/Laws.antt =====
-- What REGISTER and UNREGISTER of src/services.c do to the accounts of the database, where no call of
-- the file system fails.
use ds_lab_assignment.Prelude.{◌≡◌, ◌≢◌, refl, [], ◌∷◌, ◌++◌, true, Bytes, is_neg, arith}
use ds_lab_assignment.Util.Types.{Entry, Request}
use ds_lab_assignment.Dbms.Fs.{Fs, Entries, end}
use ds_lab_assignment.Dbms.Paths.Laws.{NoSlash}
use ds_lab_assignment.Dbms.Remove.Laws.{NoFaults}
use ds_lab_assignment.Dbms.Account.{Account, Unknown, SameOthers}
use ds_lab_assignment.Dbms.Tables.{
  db_user_exists_lem, db_creat_usr_tbl_lem, db_creat_usr_tbl_exists, db_del_usr_tbl_lem,
}
use ds_lab_assignment.Services.World.{World, Stack, receive}
use ds_lab_assignment.Services.Users.{new_user, srv_register, srv_unregister}

-- the world in which the name that a client sent has been read
abbrev pub after_name : Request → World → World
after_name request w = (receive request.username w).world

-- the name that a client sent
abbrev pub sent_name : Request → World → Bytes
sent_name request w = (receive request.username w).string

-- A name was read from the client, who can be answered, and no call of the file system fails.
pub record Named (request : Request) (w : World) : Type 0 where
  pub read : is_neg (receive request.username w).result ≢ true
  pub name : NoSlash (sent_name request w)
  pub sound : NoFaults w.fs.faulty
  pub writable : w.writable ≡ true

module _ (s : Stack) (request : Request) (w : World) (n : Named request w) where
  -- A name without a slash was read from a client who can be answered, and no call of the file
  -- system fails. REGISTER of a name without an account answers 0 and opens an account without
  -- pending messages, whose entry has the last message ID 0. Nothing changes in the tables of
  -- other users.
  pub srv_register_new :
      Unknown w.fs (sent_name request w)
      → (fs' : Fs) × (srv_register s request w
          ≡ record (after_name request w) { fs = fs'; replies = w.replies ++ (0 ∷ []) ∷ [] })
        × Account fs' (sent_name request w) (new_user s (sent_name request w)) end
        × SameOthers (sent_name request w) w.fs fs'
  unfolding srv_register
  srv_register_new a =
      let e = new_user s (sent_name request w) in
      let (fs', made, account, others, _) = db_creat_usr_tbl_lem w.fs n.sound e n.name refl a in
      (fs', ground (arith, made, n.read, n.writable), account, others)

  -- A name without a slash was read from a client who can be answered, and no call of the file
  -- system fails. REGISTER of a name with an account answers 1 and changes nothing in the
  -- database.
  pub srv_register_known :
      (old : Entry) (pend : Entries)
      → Account w.fs (sent_name request w) old pend
      → srv_register s request w
        ≡ record (after_name request w) { replies = w.replies ++ (1 ∷ []) ∷ [] }
  unfolding srv_register
  srv_register_known old pend a =
      let e = new_user s (sent_name request w) in
      let same = db_creat_usr_tbl_exists w.fs e old pend n.sound n.name a in
      ground (arith, same, n.read, n.writable)

  -- A name without a slash was read from a client who can be answered, and no call of the file
  -- system fails. UNREGISTER of a name with an account answers 0 and leaves nothing of the
  -- account. Nothing changes in the tables of other users.
  pub srv_unregister_known :
      (e : Entry) (pend : Entries)
      → Account w.fs (sent_name request w) e pend
      → (fs' : Fs) × (srv_unregister request w
          ≡ record (after_name request w) { fs = fs'; replies = w.replies ++ (0 ∷ []) ∷ [] })
        × Unknown fs' (sent_name request w)
        × SameOthers (sent_name request w) w.fs fs'
  unfolding srv_unregister
  srv_unregister_known e pend a =
      let (there, _) = db_user_exists_lem w.fs n.sound (sent_name request w) n.name in
      let (fs', gone, unknown, others, _) =
        db_del_usr_tbl_lem w.fs (sent_name request w) e pend n.sound n.name a in
      (fs', ground (arith, there e pend a, gone, n.read, n.writable), unknown, others)

  -- A name without a slash was read from a client who can be answered, and no call of the file
  -- system fails. UNREGISTER of a name without an account answers 1 and changes nothing in the
  -- database.
  pub srv_unregister-Unknown :
      Unknown w.fs (sent_name request w)
      → srv_unregister request w
        ≡ record (after_name request w) { replies = w.replies ++ (1 ∷ []) ∷ [] }
  unfolding srv_unregister
  srv_unregister-Unknown a =
      let (_, absent) = db_user_exists_lem w.fs n.sound (sent_name request w) n.name in
      ground (arith, absent a, n.read, n.writable)
