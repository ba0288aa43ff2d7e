-- ===== src/Services/Pending.antt =====
-- `aux_connect_send_pend_msgs` of src/services.c, with fuel for its loop: `none` means that the fuel
-- ran out.
pub mod Mail
pub mod Laws
pub mod Undeletable
pub mod Again
pub mod Resent
use ds_lab_assignment.Prelude.{
  ℕ, zero, suc, if◌then◌else◌, true, false, int_eq, Option, none, some, ℤ, pos, is_neg,
}
use ds_lab_assignment.Util.Codes.{
  dbms_success, dbms_err_any, srv_success, srv_err_send_any, status_dcn,
}
use ds_lab_assignment.Util.Types.{Entry, Mode}
use ds_lab_assignment.Dbms.Ops.{db_get_pend_msg}
use ds_lab_assignment.Services.World.{World, Stack, io_op, user_entry}
use ds_lab_assignment.Services.Client.{clt_send_message, clt_send_mess_ack}

-- The entry with its user marked as disconnected.
abbrev pub disconnected : Entry → Entry
disconnected e = record e { user = record e.user { status = status_dcn } }

-- A message has been sent: it is deleted, and its sender gets the second acknowledgement.
unfoldable pub acknowledge : Stack → Entry → World → World
unfolding io_op
acknowledge s pend w =
    let deleted = io_op pend Mode.delete w in
    (clt_send_mess_ack pend.msg.id (user_entry s.entry pend.msg.sender) deleted.world).world

-- The loop, over the pending message's entry and the recipient's.
unfoldable pub send_pending : Stack → ℕ → Entry → Entry → World → Option (ℤ × World)
unfolding io_op
send_pending s zero pend recipient w = none
send_pending s (suc fuel) pend recipient w =
    let (code, pend') = db_get_pend_msg pend w.fs in
    elim (int_eq code dbms_success) [
      | false ↦ some (pos srv_success, w)
      | true ↦
          let sent = clt_send_message pend'.msg recipient w in
          elim (int_eq sent.result (pos srv_success)) [
            | true ↦ send_pending s fuel pend' sent.entry (acknowledge s pend' sent.world)
            | false ↦ some (
              pos srv_err_send_any,
              (io_op (disconnected sent.entry) Mode.modify sent.world).world,
            )
          ]
    ]

-- `aux_connect_send_pend_msgs`
unfoldable pub aux_connect_send_pend_msgs : Stack → ℕ → Entry → World → Option (ℤ × World)
unfolding io_op
aux_connect_send_pend_msgs s fuel pend w =
    let r = io_op (user_entry s.entry pend.username) Mode.read w in
    let rest = send_pending s fuel pend r.entry r.world in
    if is_neg r.result then some (dbms_err_any, r.world) else rest
