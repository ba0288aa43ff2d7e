-- ===== src/Services/Pending/Again.antt =====
-- The rounds of the loop of `aux_connect_send_pend_msgs` of src/services.c where no file can be deleted.
use ds_lab_assignment.Prelude.{
  ℕ, suc, some, ◌≡◌, refl, sym, ◌∙◌, List, [], ◌∷◌, ◌++◌, pos, Bytes, arith,
}
use mathlib.Core.Path.{subst}
use ds_lab_assignment.Util.Codes.{gen_err_any}
use ds_lab_assignment.Util.Types.{Entry, EntryType, Message}
use ds_lab_assignment.Dbms.Fs.{image, file, Entries, enoent, ok, err, walk}
use ds_lab_assignment.Dbms.Paths.Laws.{NoSlash}
use ds_lab_assignment.Dbms.Readable.{read_ud, read_ud_missing}
use ds_lab_assignment.Dbms.Account.{data_at, Account}
use ds_lab_assignment.Services.World.{Peer, accepts, refuses, World, Stack, user_entry}
use ds_lab_assignment.Services.Client.{
  next_peer, aux_connect_clt_listen_thread, clt_send_message, clt_send_mess_ack,
}
use ds_lab_assignment.Services.Client.Laws.{message_frame}
use ds_lab_assignment.Services.Pending.{acknowledge}
use ds_lab_assignment.Services.Pending.Undeletable.{Undeletable, first_of, delete_remaining}

module _ (given e : Entry) (plain : NoSlash given.username)
    (is_ud : given.type ≡ EntryType.ud) where
  connected :
      (w : World)
      → Undeletable w.fs
      → walk (data_at given.username) w.fs.root ≡ ok (file (image e))
      → aux_connect_clt_listen_thread given w ≡ record {
        result = (next_peer w.beyond w.peers).0;
        entry = e;
        world = record w { peers = (next_peer w.beyond w.peers).1 };
      }
  unfolding aux_connect_clt_listen_thread
  connected w k stored = ground (arith, read_ud w.fs given plain is_ud (k.readable _) e stored)

  -- a thread behind the end of the list
  pub transmitted_beyond :
      (m : Message) (n : ℕ) (w : World)
      → Undeletable w.fs
      → walk (data_at given.username) w.fs.root ≡ ok (file (image e))
      → w.peers ≡ []
      → w.beyond ≡ some (suc (suc (suc (suc n))))
      → clt_send_message m given w ≡ record {
        result = pos 0;
        entry = e;
        world = record w { peers = []; frames = w.frames ++ message_frame e m ∷ [] };
      }
  unfolding clt_send_message next_peer
  transmitted_beyond m n w k stored h more = ground (arith, connected w k stored, h, more)

  pub transmitted :
      (m : Message) (peers : List Peer) (w : World)
      → Undeletable w.fs
      → walk (data_at given.username) w.fs.root ≡ ok (file (image e))
      → w.peers ≡ accepts 4 ∷ peers
      → clt_send_message m given w ≡ record {
        result = pos 0;
        entry = e;
        world = record w { peers = peers; frames = w.frames ++ message_frame e m ∷ [] };
      }
  unfolding clt_send_message next_peer
  transmitted m peers w k stored h = ground (arith, connected w k stored, h)

  pub refused :
      (m : Message) (peers : List Peer) (w : World)
      → Undeletable w.fs
      → walk (data_at given.username) w.fs.root ≡ ok (file (image e))
      → w.peers ≡ refuses ∷ peers
      → clt_send_message m given w
        ≡ record { result = gen_err_any; entry = e; world = record w { peers = peers } }
  unfolding clt_send_message next_peer
  refused m peers w k stored h = ground (arith, connected w k stored, h)

-- the sender has no entry, and gets no acknowledgement
unacknowledged :
    (s : Stack) (from : Bytes) (id : ℕ) (w : World)
    → Undeletable w.fs
    → NoSlash from
    → walk (data_at from) w.fs.root ≡ err enoent
    → (clt_send_mess_ack id (user_entry s.entry from) w).world ≡ w
unfolding clt_send_mess_ack aux_connect_clt_listen_thread
unacknowledged s from id w k plain gone =
    ground (arith, read_ud_missing w.fs (user_entry s.entry from) plain refl (k.readable _) gone)

-- A round of the loop that sends the message leaves it pending.
pub record Again (s : Stack) (w w' : World) (e m : Entry) (more : Entries) : Type 0 where
  pub account : Account w'.fs m.username e (first_of m more)
  pub undeletable : Undeletable w'.fs
  pub gone : walk (data_at m.msg.sender) w'.fs.root ≡ err enoent
  pub peers : w'.peers ≡ w.peers
  pub beyond : w'.beyond ≡ w.beyond
  pub frames : w'.frames ≡ w.frames

pub acknowledged :
    (s : Stack) (w : World) (e m : Entry) (more : Entries)
    → Undeletable w.fs
    → NoSlash m.username
    → m.type ≡ EntryType.p_msg
    → NoSlash m.msg.sender
    → walk (data_at m.msg.sender) w.fs.root ≡ err enoent
    → Account w.fs m.username e (first_of m more)
    → Again s w (acknowledge s m w) e m more
unfolding acknowledge
acknowledged s w e m more k plain is_msg sender gone a =
    let (fs', deleted, stuck) = delete_remaining w.fs m e more k plain is_msg a in
    let absent = stuck.apart m.msg.sender ∙ gone in
    let e1 : acknowledge s m w ≡ record w { fs = fs' } = ground (
      arith,
      deleted,
      unacknowledged s m.msg.sender m.msg.id (record w { fs = fs' }) stuck.undeletable sender
          absent,
    ) in
    subst (λ x. Again s w x e m more) (sym e1)
      (record {
        account = stuck.account;
        undeletable = stuck.undeletable;
        gone = absent;
        peers = refl;
        beyond = refl;
        frames = refl;
      })
