-- ===== src/Services/Users.antt =====
-- The REGISTER, UNREGISTER, CONNECT and DISCONNECT services of src/services.c.
pub mod Laws
pub mod Sessions
pub mod Connect
pub mod Unreachable
pub mod Race
pub mod Alias
pub mod Unwritten
pub mod Unmade
use ds_lab_assignment.Prelude.{
  ℕ, ◌%◌, ◌^◌, ◌==◌, if◌then◌else◌, Bool, true, false, not, int_eq, List, [], ◌∷◌, ◌++◌, Option,
  none, some, ℤ, pos, is_neg, Bytes,
}
use ds_lab_assignment.Util.Codes.{
  dbms_err_exists, dbms_err_not_exists, c_true, c_false, srv_success, srv_err_reg_usr_already_reg,
  srv_err_unreg_usr_not_exists, srv_err_unreg_any, srv_err_cn_usr_not_exists,
  srv_err_cn_usr_already_cn, srv_err_cn_any, srv_err_dcn_usr_not_exists, srv_err_dcn_usr_not_cn,
  srv_err_dcn_any, status_cn, status_dcn,
}
use ds_lab_assignment.Util.Types.{Entry, EntryType, Userdata, Request, Mode}
use ds_lab_assignment.Util.StrToNum.{CastType, Cast, str_to_num}
use ds_lab_assignment.Dbms.Fs.{Fs}
use ds_lab_assignment.Dbms.Ops.{db_user_exists, db_creat_usr_tbl, db_del_usr_tbl}
use ds_lab_assignment.Services.World.{
  World, Stack, Input, receive, reply_bytes, Io, io_op, user_entry,
}
use ds_lab_assignment.Services.Pending.{aux_connect_send_pend_msgs}

-- the reply sent, whether the client can be reached or not
unfoldable pub replied : ℕ → World → World
unfolding reply_bytes
replied code w = (reply_bytes (code ∷ []) w).1

-- The entry of a new user: only its last message ID is given a value.
abbrev pub new_user : Stack → Bytes → Entry
new_user s username =
    let e = user_entry s.entry username in record e { user = record e.user { last_msg_id = 0 } }

-- `srv_register` behind `db_creat_usr_tbl`
unfoldable pub registered : ℤ × Fs → World → World
unfolding replied
registered (code, fs) w =
    replied (if int_eq code dbms_err_exists then srv_err_reg_usr_already_reg else srv_success)
      (record w { fs = fs })

-- `srv_register`
unfoldable pub srv_register : Stack → Request → World → World
unfolding receive registered
srv_register s request w =
    let r = receive request.username w in
    let made = db_creat_usr_tbl (new_user s r.string) r.world.fs in
    if is_neg r.result then r.world else registered made r.world

-- `srv_unregister` behind the username
unfoldable pub unregister_user : Bytes → World → World
unfolding replied
unregister_user username w =
    let user_exists = db_user_exists username w.fs in
    let (code, fs) = db_del_usr_tbl username w.fs in
    if int_eq user_exists c_true
    then replied (if is_neg code then srv_err_unreg_any else srv_success) (record w { fs = fs })
    else if int_eq user_exists c_false
    then replied srv_err_unreg_usr_not_exists w
    else replied srv_err_unreg_any w

-- `srv_unregister`
unfoldable pub srv_unregister : Request → World → World
unfolding receive unregister_user
srv_unregister request w =
    let r = receive request.username w in
    if is_neg r.result then r.world else unregister_user r.string r.world

-- A reply and the world in which it is to be sent.
pub record Answer : Type 0 where
  pub reply : ℕ
  pub world : World

-- The result of writing a user's entry back, as CONNECT and DISCONNECT report it.
unfoldable pub written_back : ℕ → ℕ → Io → Answer
written_back not_exists any r = record {
  reply =
      if int_eq r.result dbms_err_not_exists
      then not_exists
      else if is_neg r.result
      then any
      else srv_success;
  world = r.world;
}

-- CONNECT, for a user who is not connected. `reply` is uninitialised: it is 3 behind the checks if a
-- check failed, or if it was 3 before.
unfoldable pub connect_user : Stack → Bytes → Io → Answer
unfolding io_op written_back
connect_user s client_port r =
    let c = str_to_num client_port CastType.int in
    let cast_reply = if is_neg c.result then srv_err_cn_any else s.reply in
    let reply : ℕ = elim r.world.peer_ip [ none ↦ srv_err_cn_any | some _ ↦ cast_reply ] in
    let ip : ℕ = elim r.world.peer_ip [ none ↦ r.entry.user.ip | some a ↦ a ] in
    let tmp_port : ℕ = elim c.number [ none ↦ 0 | some n ↦ n ] in
    let e = record r.entry {
      user = record r.entry.user { status = status_cn; port = tmp_port % 2 ^ 16; ip = ip };
    } in
    if not (reply == srv_err_cn_any)
    then written_back srv_err_cn_usr_not_exists srv_err_cn_any (io_op e Mode.modify r.world)
    else record { reply = reply; world = r.world }

-- CONNECT, behind the read of the user's entry
unfoldable pub connect_answer : Stack → Bytes → Io → Answer
unfolding connect_user
connect_answer s client_port r =
    if int_eq r.result dbms_err_not_exists
    then record { reply = srv_err_cn_usr_not_exists; world = r.world }
    else if is_neg r.result
    then record { reply = srv_err_cn_any; world = r.world }
    else if r.entry.user.status == status_cn
    then record { reply = srv_err_cn_usr_already_cn; world = r.world }
    else connect_user s client_port r

-- The entry that `srv_connect` sets up for pending messages.
abbrev pub pend_entry : Stack → Bytes → Entry
pend_entry s username = record s.entry { type = EntryType.p_msg; username = username }

-- `srv_connect` behind the strings of the request: the pending messages are sent after any reply.
unfoldable pub srv_connect_request : Stack → ℕ → Bytes → Bytes → World → Option World
unfolding io_op connect_answer replied
srv_connect_request s fuel username client_port w =
    let a = connect_answer s client_port (io_op (user_entry s.entry username) Mode.read w) in
    elim (aux_connect_send_pend_msgs s fuel (pend_entry s username) (replied a.reply a.world)) [
      | none ↦ none
      | some (_, w') ↦ some w'
    ]

-- `srv_connect`, with fuel for the loop over the pending messages
unfoldable pub srv_connect : Stack → ℕ → Request → World → Option World
unfolding receive srv_connect_request
srv_connect s fuel request w =
    let username = receive request.username w in
    let port = receive request.client_port username.world in
    if is_neg username.result
    then some username.world
    else if is_neg port.result
    then some port.world
    else srv_connect_request s fuel username.string port.string port.world

-- DISCONNECT, behind the read of the user's entry
unfoldable pub disconnect_answer : Io → Answer
unfolding io_op written_back
disconnect_answer r =
    let e = record r.entry {
      user = record r.entry.user { status = status_dcn; ip = 0; port = 0 };
    } in
    if int_eq r.result dbms_err_not_exists
    then record { reply = srv_err_dcn_usr_not_exists; world = r.world }
    else if is_neg r.result
    then record { reply = srv_err_dcn_any; world = r.world }
    else if r.entry.user.status == status_dcn
    then record { reply = srv_err_dcn_usr_not_cn; world = r.world }
    else written_back srv_err_dcn_usr_not_exists srv_err_dcn_any (io_op e Mode.modify r.world)

-- `srv_disconnect`
unfoldable pub srv_disconnect : Stack → Request → World → World
unfolding receive io_op disconnect_answer replied
srv_disconnect s request w =
    let r = receive request.username w in
    let a = disconnect_answer (io_op (user_entry s.entry r.string) Mode.read r.world) in
    if is_neg r.result then r.world else replied a.reply a.world
