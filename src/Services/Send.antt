-- ===== src/Services/Send.antt =====
-- The SEND service: `aux_send_init`, `aux_send_msg_pass`, `aux_send_first_ack` and `srv_send` of
-- src/services.c.
pub mod Laws
pub mod Online
pub mod Refused
pub mod Race
use ds_lab_assignment.Prelude.{
  ℕ, ◌+◌, ◌%◌, ◌^◌, ◌==◌, if◌then◌else◌, Bool, true, false, not, ◌||◌, int_eq, List, [], ◌∷◌, ◌++◌,
  Option, none, some, ℤ, pos, is_neg, Bytes,
}
use ds_lab_assignment.Util.Codes.{
  srv_success, srv_err_send_usr_not_exists, srv_err_send_any, status_cn, status_dcn,
  msg_id_max_value,
}
use ds_lab_assignment.Util.Types.{Entry, EntryType, Message, Userdata, Request, Mode}
use ds_lab_assignment.Util.Decimal.{decimal}
use ds_lab_assignment.Dbms.Ops.{db_user_exists}
use ds_lab_assignment.Services.World.{
  World, Stack, Input, receive, reply_bytes, Io, io_op, user_entry,
}
use ds_lab_assignment.Services.Client.{clt_send_message, clt_send_mess_ack}
use ds_lab_assignment.Services.Pending.{disconnected}

-- The reply, an entry that a function fills, and the world after it.
pub record Step : Type 0 where
  pub reply : ℕ
  pub entry : Entry
  pub world : World

-- `(last_msg_id + 1) % MSG_ID_MAX_VALUE`: the sum is an unsigned int.
unfoldable pub next_id : ℕ → ℕ
next_id last = (last + 1) % 2 ^ 32 % msg_id_max_value

abbrev pub advanced : Entry → Entry
advanced e = record e { user = record e.user { last_msg_id = next_id e.user.last_msg_id } }

-- `aux_send_init`, where both users exist: the recipient's message ID goes up by one.
unfoldable pub advance_id : Io → Step
unfolding io_op
advance_id r =
    let written = io_op (advanced r.entry) Mode.modify r.world in
    if is_neg r.result
    then record { reply = srv_err_send_any; entry = r.entry; world = r.world }
    else record {
      reply = if is_neg written.result then srv_err_send_any else srv_success;
      entry = written.entry;
      world = written.world;
    }

-- `aux_send_init`
unfoldable pub aux_send_init : Request → Entry → World → Step
unfolding advance_id io_op
aux_send_init request e w =
    let sender_exists = db_user_exists request.message.sender w.fs in
    let recipient_exists = db_user_exists request.recipient w.fs in
    if int_eq sender_exists (pos 0) || int_eq recipient_exists (pos 0)
    then record { reply = srv_err_send_usr_not_exists; entry = e; world = w }
    else if is_neg sender_exists || is_neg recipient_exists
    then record { reply = srv_err_send_any; entry = e; world = w }
    else advance_id (io_op (user_entry e request.recipient) Mode.read w)

-- The entry of the message, if it has to be stored.
abbrev pub message_entry : Stack → Request → Entry → Entry
message_entry s request recipient = record s.entry {
  type = EntryType.p_msg;
  username = request.recipient;
  msg = record {
    sender = request.message.sender;
    id = recipient.user.last_msg_id;
    content = request.message.content;
  };
}

-- Behind a transmission: a recipient who was not reached is marked as disconnected.
unfoldable pub after_send : ℕ → Io → Step
unfolding io_op
after_send reply sent =
    let marked = io_op (disconnected sent.entry) Mode.modify sent.world in
    if int_eq sent.result (pos srv_success)
    then record { reply = reply; entry = sent.entry; world = sent.world }
    else record {
      reply = if is_neg marked.result then srv_err_send_any else reply;
      entry = marked.entry;
      world = marked.world;
    }

-- `aux_send_msg_pass`, for the message's entry
unfoldable pub aux_send_msg_pass : ℕ → Entry → Entry → World → Step
unfolding after_send
aux_send_msg_pass reply msg_entry recipient w =
    if recipient.user.status == status_cn
    then after_send reply (clt_send_message msg_entry.msg recipient w)
    else record { reply = reply; entry = recipient; world = w }

-- `aux_send_first_ack`
unfoldable pub aux_send_first_ack : ℕ → ℕ → World → World
unfolding reply_bytes
aux_send_first_ack reply msg_id w =
    let (code, w') = reply_bytes (reply ∷ []) w in
    if is_neg code
    then w'
    else if reply == srv_success
    then (reply_bytes (decimal msg_id ++ 0 ∷ []) w').1
    else w'

-- The message is stored, if it has to be.
unfoldable pub store_message : Stack → Entry → Step → Step
unfolding io_op
store_message s msg_entry p =
    let stored = io_op msg_entry Mode.create p.world in
    if p.entry.user.status == status_dcn || not (s.send_msg_reply == srv_success)
    then record {
      reply = if is_neg stored.result then srv_err_send_any else p.reply;
      entry = p.entry;
      world = stored.world;
    }
    else p

-- The second acknowledgement, to the sender.
unfoldable pub second_ack : Stack → Request → Entry → World → World
second_ack s request recipient w =
    if recipient.user.status == status_cn
    then (clt_send_mess_ack recipient.user.last_msg_id (user_entry s.entry request.message.sender)
        w).world
    else w

-- `srv_send` behind `aux_send_init`
unfoldable pub pass_message : Stack → Request → Step → World
unfolding store_message aux_send_msg_pass aux_send_first_ack second_ack
pass_message s request p =
    let msg_entry = message_entry s request p.entry in
    let q = store_message s msg_entry (aux_send_msg_pass p.reply msg_entry p.entry p.world) in
    second_ack s request q.entry (aux_send_first_ack q.reply msg_entry.msg.id q.world)

-- `srv_send` behind the strings of the request
unfoldable pub srv_send_request : Stack → Request → World → World
unfolding aux_send_init pass_message reply_bytes
srv_send_request s request w =
    let p = aux_send_init request s.entry w in
    if not (p.reply == srv_success)
    then (reply_bytes (p.reply ∷ []) p.world).1
    else pass_message s request p

-- `srv_send`: it returns as soon as a string cannot be read.
unfoldable pub srv_send : Stack → Request → World → World
unfolding receive
srv_send s request w =
    let m = request.message in
    let sender = receive m.sender w in
    let recipient = receive request.recipient sender.world in
    let content = receive m.content recipient.world in
    if is_neg sender.result
    then sender.world
    else if is_neg recipient.result
    then recipient.world
    else if is_neg content.result
    then content.world
    else srv_send_request s
        (record request {
          recipient = recipient.string;
          message = record m { sender = sender.string; content = content.string };
        })
        content.world
