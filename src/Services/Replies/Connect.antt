-- ===== src/Services/Replies/Connect.antt =====
-- The replies of CONNECT of src/services.c, whatever fails.
use ds_lab_assignment.Prelude.{
  ℕ, ◌∙◌, ◌%◌, ◌^◌, if◌then◌else◌, ◌<◌, ◌≡◌, ◌==◌, refl, not, length, Option, none, some, ℤ, Bytes,
  if_elim, is_neg, int_eq, arith,
}
use ds_lab_assignment.Services.Users.{
  replied, connect_user, connect_answer, pend_entry, srv_connect_request, srv_connect,
}
use ds_lab_assignment.Services.Pending.{aux_connect_send_pend_msgs}
use ds_lab_assignment.Util.StrToNum.{CastType, str_to_num}
use ds_lab_assignment.Util.Codes.{dbms_err_not_exists, srv_err_cn_any, status_cn}
use ds_lab_assignment.Util.Types.{Request, Mode}
use ds_lab_assignment.Services.World.{World, Stack, Io, io_op, user_entry, receive}
use ds_lab_assignment.Services.Replies.{
  Replied, Answered, Answered-Replied, written_back_lem, Silent-Replied, Replied-before,
  Replied-after, same,
}
use ds_lab_assignment.Services.Replies.Transmission.{aux_connect_send_pend_msgs-Silent}

connect_user_lem : (s : Stack) (port : Bytes) (r : Io) → Answered r.world (connect_user s port r)
unfolding connect_user io_op
connect_user_lem s port r =
    let c = str_to_num port CastType.int in
    let cast_reply = if is_neg c.result then srv_err_cn_any else s.reply in
    let reply : ℕ = elim r.world.peer_ip [ none ↦ srv_err_cn_any | some _ ↦ cast_reply ] in
    let ip : ℕ = elim r.world.peer_ip [ none ↦ r.entry.user.ip | some a ↦ a ] in
    let tmp_port : ℕ = elim c.number [ none ↦ 0 | some n ↦ n ] in
    let e = record r.entry {
      user = record r.entry.user { status = status_cn; port = tmp_port % 2 ^ 16; ip = ip };
    } in
    let wrote = io_op e Mode.modify r.world in
    if_elim (Answered r.world) (not (reply == srv_err_cn_any))
      (λ _.
        written_back_lem 1 3 r.world wrote (omega arith) (omega arith)
          (same r.world wrote.world refl refl refl refl))
      λ is_three. record {
        small = ground (arith, is_three);
        silent = same r.world r.world refl refl refl refl;
      }

connect_answer_lem :
    (s : Stack) (port : Bytes) (r : Io) → Answered r.world (connect_answer s port r)
unfolding connect_answer
connect_answer_lem s port r =
    let still = same r.world r.world refl refl refl refl in
    if_elim (Answered r.world) (int_eq r.result dbms_err_not_exists)
      (λ _. record { small = omega arith; silent = still })
      λ _.
        if_elim (Answered r.world) (is_neg r.result)
          (λ _. record { small = omega arith; silent = still })
          λ _.
            if_elim (Answered r.world) (r.entry.user.status == status_cn)
              (λ _. record { small = omega arith; silent = still }) λ _. connect_user_lem s port r

-- The service ends, with a reply.
pub record Ends (w : World) (r : Option World) : Type 0 where
  pub after : World
  pub result : r ≡ some after
  pub replied : Replied w after

pub Ends-some : {w after : World} → Replied w after → Ends w (some after)
Ends-some {after} r = record { after = after; result = refl; replied = r }

-- CONNECT behind its loop
connect_done :
    (s : Stack) (fuel : ℕ) (username port : Bytes) (w w' : World) (code : ℤ)
    → let a = connect_answer s port (io_op (user_entry s.entry username) Mode.read w) in
      aux_connect_send_pend_msgs s fuel (pend_entry s username) (replied a.reply a.world)
        ≡ some (code, w')
      → srv_connect_request s fuel username port w ≡ some w'
unfolding srv_connect_request
connect_done s fuel username port w w' code h = rw (srv_connect_request, h) refl

srv_connect_request_lem :
    (s : Stack) (fuel : ℕ) (username port : Bytes) (w : World)
    → w.beyond ≡ none
    → length w.peers < fuel
    → Ends w (srv_connect_request s fuel username port w)
unfolding srv_connect_request io_op
srv_connect_request_lem s fuel username port w ends enough =
    let found = io_op (user_entry s.entry username) Mode.read w in
    let a = connect_answer s port found in
    let d = connect_answer_lem s port found in
    let answered = Replied-before (same w found.world refl refl refl refl) (Answered-Replied a d) in
    let (code, w', done, silent) =
      aux_connect_send_pend_msgs-Silent s fuel (pend_entry s username) (replied a.reply a.world)
        (answered.beyond ∙ ends) (omega (arith, answered.peers)) in
    record {
      after = w';
      result = connect_done s fuel username port w w' code done;
      replied = Replied-after answered silent;
    }

pub srv_connect_lem :
    (s : Stack) (fuel : ℕ) (request : Request) (w : World)
    → w.beyond ≡ none
    → length w.peers < fuel
    → Ends w (srv_connect s fuel request w)
unfolding srv_connect receive
srv_connect_lem s fuel request w ends enough =
    let username = receive request.username w in
    let port = receive request.client_port username.world in
    let read = same w port.world refl refl refl refl in
    let e = srv_connect_request_lem s fuel username.string port.string port.world ends enough in
    if_elim (Ends w) (is_neg username.result)
      (λ _. Ends-some (Silent-Replied (same w username.world refl refl refl refl)))
      λ _.
        if_elim (Ends w) (is_neg port.result) (λ _. Ends-some (Silent-Replied read))
          λ _. record {
            after = e.after;
            result = e.result;
            replied = Replied-before read e.replied;
          }
