-- ===== src/Services/InPlace/Users.antt =====
-- What REGISTER, UNREGISTER and DISCONNECT of src/services.c change in the database, whatever fails.
use ds_lab_assignment.Prelude.{ℕ, ◌==◌, refl, Bytes, if_elim, is_neg, int_eq}
use ds_lab_assignment.Util.Codes.{dbms_err_not_exists, c_true, c_false, status_dcn}
use ds_lab_assignment.Util.Types.{Request, Entry, Mode}
use ds_lab_assignment.Dbms.Fs.{Fs}
use ds_lab_assignment.Dbms.Ops.{db_creat_usr_tbl, db_user_exists, db_del_usr_tbl}
use ds_lab_assignment.Dbms.InPlace.{InPlace}
use ds_lab_assignment.Dbms.InPlace.Calls.Tables.{db_creat_usr_tbl-home, db_del_usr_tbl-home}
use ds_lab_assignment.Dbms.InPlace.Calls.Reads.{Owned, Owned-user, Owned-own, read-Owned}
use ds_lab_assignment.Services.World.{World, Stack, receive, Io, io_op, user_entry}
use ds_lab_assignment.Services.Users.Sessions.{offline}
use ds_lab_assignment.Services.Users.{
  Answer, replied, new_user, disconnect_answer, written_back, srv_register, unregister_user,
  srv_unregister, srv_disconnect,
}
use ds_lab_assignment.Services.InPlace.{
  Kept, Kept-Within, Kept-same, Kept-trans, io_op-Kept, replied-fs,
}

-- A reply changes nothing.
pub replied-Kept :
    (u : Bytes) (code : ℕ) {fs : Fs} (w : World) → Kept u fs w.fs → Kept u fs (replied code w).fs
replied-Kept u code w k = Kept-trans k (Kept-same u k.in_place (replied-fs code w))

pub srv_register-Kept :
    (s : Stack) (request : Request) (w : World)
    → InPlace w.fs
    → Kept (receive request.username w).string w.fs (srv_register s request w).fs
unfolding srv_register receive
srv_register-Kept s request w i =
    let r = receive request.username w in
    let made = db_creat_usr_tbl (new_user s r.string) r.world.fs in
    if_elim (λ (x : World). Kept r.string w.fs x.fs) (is_neg r.result)
      (λ _. Kept-same r.string i refl)
      λ _.
        replied-Kept r.string _ (record r.world { fs = made.1 })
          (Kept-Within i (db_creat_usr_tbl-home (new_user s r.string) w.fs))

unregister_user-Kept :
    (username : Bytes) (w : World)
    → InPlace w.fs
    → Kept username w.fs (unregister_user username w).fs
unfolding unregister_user
unregister_user-Kept username w i =
    let exists = db_user_exists username w.fs in
    let gone = db_del_usr_tbl username w.fs in
    let same = Kept-same username i refl in
    let P = λ (x : World). Kept username w.fs x.fs in
    if_elim P (int_eq exists c_true)
      (λ _.
        replied-Kept username _ (record w { fs = gone.1 })
          (Kept-Within i (db_del_usr_tbl-home username w.fs)))
      λ _.
        if_elim P (int_eq exists c_false) (λ _. replied-Kept username _ w same)
          λ _. replied-Kept username _ w same

pub srv_unregister-Kept :
    (request : Request) (w : World)
    → InPlace w.fs
    → Kept (receive request.username w).string w.fs (srv_unregister request w).fs
unfolding srv_unregister receive
srv_unregister-Kept request w i =
    let r = receive request.username w in
    if_elim (λ (x : World). Kept r.string w.fs x.fs) (is_neg r.result)
      (λ _. Kept-same r.string i refl) λ _. unregister_user-Kept r.string r.world i

-- An entry that was read, and what was changed before.
pub record Found (u : Bytes) (fs : Fs) (r : Io) : Type 0 where
  pub kept : Kept u fs r.world.fs
  pub owned : Owned u r.entry

pub read-Found :
    (u : Bytes) (e : Entry) (w : World)
    → InPlace w.fs
    → Owned u e
    → Found u w.fs (io_op e Mode.read w)
unfolding io_op
read-Found u e w i o = record {
  kept = io_op-Kept u e Mode.read w.fs i o;
  owned = read-Owned u e w.fs i o;
}

-- What is written back in place of an entry that was read is written at its path.
pub rewritten-Kept :
    (u : Bytes) (e : Entry) (mode : Mode) {fs : Fs} (w : World)
    → Kept u fs w.fs
    → Owned u e
    → Kept u fs (io_op e mode w).world.fs
unfolding io_op
rewritten-Kept u e mode w k o = Kept-trans k (io_op-Kept u e mode w.fs k.in_place o)

disconnect_answer-Kept :
    (u : Bytes) {fs : Fs} (r : Io) → Found u fs r → Kept u fs (disconnect_answer r).world.fs
unfolding disconnect_answer written_back
disconnect_answer-Kept u {fs} r f =
    let e = offline r.entry in
    let P = λ (a : Answer). Kept u fs a.world.fs in
    if_elim P (int_eq r.result dbms_err_not_exists) (λ _. f.kept)
      λ _.
        if_elim P (is_neg r.result) (λ _. f.kept)
          λ _.
            if_elim P (r.entry.user.status == status_dcn) (λ _. f.kept)
              λ _. rewritten-Kept u e Mode.modify r.world f.kept (Owned-user r.entry e.user f.owned)

pub srv_disconnect-Kept :
    (s : Stack) (request : Request) (w : World)
    → InPlace w.fs
    → Kept (receive request.username w).string w.fs (srv_disconnect s request w).fs
unfolding srv_disconnect receive
srv_disconnect-Kept s request w i =
    let r = receive request.username w in
    let e = user_entry s.entry r.string in
    let found = io_op e Mode.read r.world in
    let a = disconnect_answer found in
    if_elim (λ (x : World). Kept r.string w.fs x.fs) (is_neg r.result)
      (λ _. Kept-same r.string i refl)
      λ _.
        replied-Kept r.string a.reply a.world
          (disconnect_answer-Kept r.string found (read-Found r.string e r.world i (Owned-own e)))
