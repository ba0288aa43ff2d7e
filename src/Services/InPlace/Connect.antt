-- ===== src/Services/InPlace/Connect.antt =====
-- What CONNECT of src/services.c, and the loop over the pending messages behind it, change in the database,
-- whatever fails.
use ds_lab_assignment.Prelude.{
  ℕ, zero, suc, ◌%◌, ◌^◌, ◌==◌, refl, true, false, Bool, not, if◌then◌else◌, Option, none, some, ℤ,
  pos, Bytes, if_elim, is_neg, int_eq,
}
use ds_lab_assignment.Util.Codes.{
  dbms_success, dbms_err_any, srv_success, srv_err_send_any, srv_err_cn_any, dbms_err_not_exists,
  status_cn,
}
use ds_lab_assignment.Util.StrToNum.{CastType, str_to_num}
use ds_lab_assignment.Util.Types.{Request, Entry, Mode}
use ds_lab_assignment.Dbms.Fs.{Fs}
use ds_lab_assignment.Dbms.Ops.{db_get_pend_msg}
use ds_lab_assignment.Dbms.InPlace.{InPlace}
use ds_lab_assignment.Dbms.InPlace.Calls.Reads.{Owned, Owned-own, Owned-user}
use ds_lab_assignment.Dbms.InPlace.Calls.Letters.{Mine, Mine-own, db_get_pend_msg-Mine}
use ds_lab_assignment.Services.World.{World, Stack, receive, Io, io_op, user_entry}
use ds_lab_assignment.Services.Client.{clt_send_message}
use ds_lab_assignment.Services.Pending.{
  disconnected, acknowledge, send_pending, aux_connect_send_pend_msgs,
}
use ds_lab_assignment.Services.Users.{
  Answer, replied, written_back, connect_user, connect_answer, pend_entry, srv_connect_request,
  srv_connect,
}
use ds_lab_assignment.Services.InPlace.{
  Kept, Kept-same, Kept-trans, clt_send_message-fs, clt_send_message-Owned, clt_send_mess_ack-fs,
}
use ds_lab_assignment.Services.InPlace.Users.{replied-Kept, Found, read-Found, rewritten-Kept}

acknowledge-Kept :
    (u : Bytes) (s : Stack) (pend : Entry) {fs : Fs} (w : World)
    → Kept u fs w.fs
    → Owned u pend
    → Kept u fs (acknowledge s pend w).fs
unfolding acknowledge
acknowledge-Kept u s pend w k o =
    let deleted = rewritten-Kept u pend Mode.delete w k o in
    Kept-trans deleted (
      Kept-same u deleted.in_place (
        clt_send_mess_ack-fs pend.msg.id (user_entry s.entry pend.msg.sender)
          (io_op pend Mode.delete w).world))

-- what the loop leaves, if it ends
abbrev KeptLoop : Bytes → Fs → Option (ℤ × World) → Type 0
KeptLoop u fs none = Unit
KeptLoop u fs (some (code, w)) = Kept u fs w.fs

send_pending-Kept :
    (u : Bytes) (s : Stack) (fuel : ℕ) (pend recipient : Entry) {fs : Fs} (w : World)
    → Kept u fs w.fs
    → Mine u pend
    → Owned u recipient
    → KeptLoop u fs (send_pending s fuel pend recipient w)
unfolding send_pending
send_pending-Kept u s zero pend recipient w k m o = tt
send_pending-Kept u s (suc fuel) pend recipient {fs} w k m o =
    let next = db_get_pend_msg pend w.fs in
    let mine = db_get_pend_msg-Mine u pend w.fs k.in_place m in
    let sent = clt_send_message next.1.msg recipient w in
    let still =
      Kept-trans k (Kept-same u k.in_place (clt_send_message-fs next.1.msg recipient w)) in
    let own = clt_send_message-Owned u next.1.msg recipient w k.in_place o in
    let rest =
      send_pending-Kept u s fuel next.1 sent.entry (acknowledge s next.1 sent.world)
        (acknowledge-Kept u s next.1 sent.world still mine.owned) mine own in
    let marked =
      rewritten-Kept u (disconnected sent.entry) Mode.modify sent.world still
        (Owned-user sent.entry (disconnected sent.entry).user own) in
    go (int_eq next.0 dbms_success) (int_eq sent.result (pos srv_success)) rest marked
  where
    go :
        (found went : Bool)
        → let next = db_get_pend_msg pend w.fs in
          let sent = clt_send_message next.1.msg recipient w in
          KeptLoop u fs (send_pending s fuel next.1 sent.entry (acknowledge s next.1 sent.world))
          → Kept u fs (io_op (disconnected sent.entry) Mode.modify sent.world).world.fs
          → KeptLoop u fs (elim found as (λ _. Option (ℤ × World)) [
            | false ↦ some (pos srv_success, w)
            | true ↦ elim went as (λ _. Option (ℤ × World)) [
              | true ↦ send_pending s fuel next.1 sent.entry (acknowledge s next.1 sent.world)
              | false ↦ some (
                pos srv_err_send_any,
                (io_op (disconnected sent.entry) Mode.modify sent.world).world,
              )
            ]
          ])
    go false went rest marked = k
    go true true rest marked = rest
    go true false rest marked = marked

aux_connect_send_pend_msgs-Kept :
    (s : Stack) (fuel : ℕ) (pend : Entry) {fs : Fs} (w : World)
    → Kept pend.username fs w.fs
    → KeptLoop pend.username fs (aux_connect_send_pend_msgs s fuel pend w)
unfolding aux_connect_send_pend_msgs
aux_connect_send_pend_msgs-Kept s fuel pend {fs} w k =
    let u = pend.username in
    let e = user_entry s.entry u in
    let r = io_op e Mode.read w in
    let f = read-Found u e w k.in_place (Owned-own e) in
    let still = Kept-trans k f.kept in
    if_elim (KeptLoop u fs) (is_neg r.result) {x = some (dbms_err_any, r.world)} (λ _. still)
      λ _. send_pending-Kept u s fuel pend r.entry r.world still (Mine-own pend) f.owned

connect_user-Kept :
    (u : Bytes) (s : Stack) (port : Bytes) {fs : Fs} (r : Io)
    → Found u fs r
    → Kept u fs (connect_user s port r).world.fs
unfolding connect_user written_back
connect_user-Kept u s port {fs} r f =
    let c = str_to_num port CastType.int in
    let cast_reply = if is_neg c.result then srv_err_cn_any else s.reply in
    let reply : ℕ = elim r.world.peer_ip [ none ↦ srv_err_cn_any | some _ ↦ cast_reply ] in
    let ip : ℕ = elim r.world.peer_ip [ none ↦ r.entry.user.ip | some a ↦ a ] in
    let tmp_port : ℕ = elim c.number [ none ↦ 0 | some n ↦ n ] in
    let d = record r.entry.user { status = status_cn; port = tmp_port % 2 ^ 16; ip = ip } in
    if_elim (λ (a : Answer). Kept u fs a.world.fs) (not (reply == srv_err_cn_any))
      (λ _.
        rewritten-Kept u (record r.entry { user = d }) Mode.modify r.world f.kept
          (Owned-user r.entry d f.owned))
      λ _. f.kept

connect_answer-Kept :
    (u : Bytes) (s : Stack) (port : Bytes) {fs : Fs} (r : Io)
    → Found u fs r
    → Kept u fs (connect_answer s port r).world.fs
unfolding connect_answer
connect_answer-Kept u s port {fs} r f =
    let P = λ (a : Answer). Kept u fs a.world.fs in
    if_elim P (int_eq r.result dbms_err_not_exists) (λ _. f.kept)
      λ _.
        if_elim P (is_neg r.result) (λ _. f.kept)
          λ _.
            if_elim P (r.entry.user.status == status_cn) (λ _. f.kept)
              λ _. connect_user-Kept u s port r f

-- what a service leaves, if it ends
abbrev pub KeptEnd : Bytes → Fs → Option World → Type 0
KeptEnd u fs none = Unit
KeptEnd u fs (some w) = Kept u fs w.fs

srv_connect_request-Kept :
    (s : Stack) (fuel : ℕ) (username port : Bytes) (w : World)
    → InPlace w.fs
    → KeptEnd username w.fs (srv_connect_request s fuel username port w)
unfolding srv_connect_request
srv_connect_request-Kept s fuel username port w i =
    let e = user_entry s.entry username in
    let found = io_op e Mode.read w in
    let a = connect_answer s port found in
    let k = connect_answer-Kept username s port found (read-Found username e w i (Owned-own e)) in
    go (aux_connect_send_pend_msgs s fuel (pend_entry s username) (replied a.reply a.world)) (
      aux_connect_send_pend_msgs-Kept s fuel (pend_entry s username) (replied a.reply a.world)
        (replied-Kept username a.reply a.world k))
  where
    go :
        (r : Option (ℤ × World))
        → KeptLoop username w.fs r
        → KeptEnd username w.fs
            (elim r as (λ _. Option World) [ none ↦ none | some (_, w') ↦ some w' ])
    go none k = tt
    go (some (code, w')) k = k

pub srv_connect-Kept :
    (s : Stack) (fuel : ℕ) (request : Request) (w : World)
    → InPlace w.fs
    → KeptEnd (receive request.username w).string w.fs (srv_connect s fuel request w)
unfolding srv_connect receive
srv_connect-Kept s fuel request w i =
    let username = receive request.username w in
    let port = receive request.client_port username.world in
    let u = username.string in
    if_elim (KeptEnd u w.fs) (is_neg username.result) {x = some username.world}
      (λ _. Kept-same u i refl)
      λ _.
        if_elim (KeptEnd u w.fs) (is_neg port.result) {x = some port.world}
          (λ _. Kept-same u i refl) λ _. srv_connect_request-Kept s fuel u port.string port.world i
