-- ===== src/Services/InPlace.antt =====
-- What the services of src/services.c change in the database, whatever the database, the sockets and the
-- stack hold and whichever call fails.
pub mod Users
pub mod Connect
pub mod Send
use ds_lab_assignment.Prelude.{
  ℕ, ◌++◌, length, leb, ◌==◌, true, ◌≡◌, refl, sym, ◌∙◌, ap, List, [], ◌∷◌, Option, none, some, ℤ,
  pos, Bytes, if_elim, is_neg,
}
use mathlib.Core.Path.{subst}
use ds_lab_assignment.Util.Codes.{send_message_op, send_mess_ack_op, gen_err_any}
use ds_lab_assignment.Util.Decimal.{decimal}
use ds_lab_assignment.Util.Types.{Entry, Message, Mode}
use ds_lab_assignment.Dbms.Fs.{Fs, FilePath, walk}
use ds_lab_assignment.Dbms.Fs.Laws.{Apart}
use ds_lab_assignment.Dbms.Ops.{db_io_op_usr_ent}
use ds_lab_assignment.Dbms.InPlace.{InPlace}
use ds_lab_assignment.Dbms.InPlace.Calls.{Within, Within-above}
use ds_lab_assignment.Dbms.InPlace.Calls.Users.{home}
use ds_lab_assignment.Dbms.InPlace.Calls.Tables.{io_op-Within}
use ds_lab_assignment.Dbms.InPlace.Calls.Reads.{Owned, read-Owned, read-same}
use ds_lab_assignment.Services.World.{World, Io, io_op, reply_bytes}
use ds_lab_assignment.Services.Client.{
  Connection, next_peer, aux_connect_clt_listen_thread, carried, send_over, clt_send_message,
  clt_send_mess_ack,
}
use ds_lab_assignment.Services.Users.{replied}

-- All structs are in place, and nothing changed but in the table of the user.
pub record Kept (u : Bytes) (fs fs' : Fs) : Type 0 where
  pub in_place : InPlace fs'
  pub apart : (r : FilePath) → Apart (home u) r → walk r fs'.root ≡ walk r fs.root

pub Kept-Within : {u : Bytes} {fs fs' : Fs} → InPlace fs → Within (home u) fs fs' → Kept u fs fs'
Kept-Within i w = record { in_place = w.in_place i; apart = w.apart }

pub Kept-same : (u : Bytes) {fs fs' : Fs} → InPlace fs → fs' ≡ fs → Kept u fs fs'
Kept-same u i e = record {
  in_place = subst InPlace (sym e) i;
  apart = λ r a. ap (λ (f : Fs). walk r f.root) e;
}

pub Kept-trans : {u : Bytes} {a b c : Fs} → Kept u a b → Kept u b c → Kept u a c
Kept-trans f g = record { in_place = g.in_place; apart = λ r a. g.apart r a ∙ f.apart r a }

pub io_op-Kept :
    (u : Bytes) (e : Entry) (mode : Mode) (fs : Fs)
    → InPlace fs
    → Owned u e
    → Kept u fs (db_io_op_usr_ent e mode fs).fs
io_op-Kept u e mode fs i o = Kept-Within i (
    Within-above (home u) o.below
      (subst (λ q. Within q fs (db_io_op_usr_ent e mode fs).fs) o.at (io_op-Within e mode fs)))

-- what is written to the client's socket
pub reply_bytes-fs : (bytes : Bytes) (w : World) → (reply_bytes bytes w).1.fs ≡ w.fs
unfolding reply_bytes
reply_bytes-fs bytes w =
    let P = λ (r : ℤ × World). r.1.fs ≡ w.fs in
    if_elim P w.writable (λ _. refl)
      λ _.
        if_elim P (leb (length bytes) w.room) (λ _. refl)
          λ _. if_elim P (w.room == 0) (λ _. refl) λ _. refl

pub replied-fs : (code : ℕ) (w : World) → (replied code w).fs ≡ w.fs
unfolding replied
replied-fs code w = reply_bytes-fs (code ∷ []) w

connect-fs : (e : Entry) (w : World) → (aux_connect_clt_listen_thread e w).world.fs ≡ w.fs
unfolding aux_connect_clt_listen_thread io_op
connect-fs e w =
    let r = io_op e Mode.read w in
    if_elim (λ (c : Connection). c.world.fs ≡ w.fs) (is_neg r.result) (λ _. read-same e w.fs)
      λ _. read-same e w.fs

connect-Owned :
    (u : Bytes) (e : Entry) (w : World)
    → InPlace w.fs
    → Owned u e
    → Owned u (aux_connect_clt_listen_thread e w).entry
unfolding aux_connect_clt_listen_thread io_op
connect-Owned u e w i o =
    let r = io_op e Mode.read w in
    if_elim (λ (c : Connection). Owned u c.entry) (is_neg r.result) (λ _. read-Owned u e w.fs i o)
      λ _. read-Owned u e w.fs i o

send_over-fs :
    (strings : List Bytes) (c : Connection) → (send_over strings c).1.world.fs ≡ c.world.fs
unfolding send_over carried
send_over-fs strings c = go c.result
  where
    go : (n : Option ℕ) → (send_over strings (record c { result = n })).1.world.fs ≡ c.world.fs
    go none = refl
    go (some n) = refl

send_over-entry : (strings : List Bytes) (c : Connection) → (send_over strings c).1.entry ≡ c.entry
unfolding send_over
send_over-entry strings c = go c.result
  where
    go : (n : Option ℕ) → (send_over strings (record c { result = n })).1.entry ≡ c.entry
    go none = refl
    go (some n) = refl

pub clt_send_message-fs :
    (m : Message) (e : Entry) (w : World) → (clt_send_message m e w).world.fs ≡ w.fs
unfolding clt_send_message
clt_send_message-fs m e w =
    let c = aux_connect_clt_listen_thread e w in
    let strings = send_message_op ∷ m.sender ∷ decimal m.id ∷ m.content ∷ [] in
    let r = send_over strings c in
    let s = send_over-fs strings c ∙ connect-fs e w in
    if_elim (λ (io : Io). io.world.fs ≡ w.fs) r.0 {x = r.1}
      {y = record r.1 { result = gen_err_any }} (λ _. s) λ _. s

pub clt_send_message-Owned :
    (u : Bytes) (m : Message) (e : Entry) (w : World)
    → InPlace w.fs
    → Owned u e
    → Owned u (clt_send_message m e w).entry
unfolding clt_send_message
clt_send_message-Owned u m e w i o =
    let c = aux_connect_clt_listen_thread e w in
    let strings = send_message_op ∷ m.sender ∷ decimal m.id ∷ m.content ∷ [] in
    let r = send_over strings c in
    let s = subst (Owned u) (sym (send_over-entry strings c)) (connect-Owned u e w i o) in
    if_elim (λ (io : Io). Owned u io.entry) r.0 {x = r.1} {y = record r.1 { result = gen_err_any }}
      (λ _. s) λ _. s

pub clt_send_mess_ack-fs :
    (id : ℕ) (e : Entry) (w : World) → (clt_send_mess_ack id e w).world.fs ≡ w.fs
unfolding clt_send_mess_ack
clt_send_mess_ack-fs id e w =
    send_over-fs (send_mess_ack_op ∷ decimal id ∷ []) (aux_connect_clt_listen_thread e w)
    ∙ connect-fs e w
