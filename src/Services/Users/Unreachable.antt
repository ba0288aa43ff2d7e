-- ===== src/Services/Users/Unreachable.antt =====
-- CONNECT of src/services.c for a user whose listening thread cannot be reached, where no call of the
-- file system fails.
use ds_lab_assignment.Prelude.{
  ℕ, suc, ◌<◌, ◌^◌, ◌≡◌, ◌≢◌, refl, sym, ◌∙◌, List, [], ◌∷◌, ◌++◌, some, true, pos, arith,
}
use ds_lab_assignment.Util.Codes.{srv_err_cn_any, srv_err_send_any, status_dcn}
use ds_lab_assignment.Util.Types.{Entry, EntryType}
use ds_lab_assignment.Util.Decimal.{decimal}
use ds_lab_assignment.Util.StrToNum.Laws.{str_to_num-decimal, str_to_num-uint}
use ds_lab_assignment.Dbms.Fs.{Fs, image, file, Entries, entry}
use ds_lab_assignment.Dbms.Paths.Laws.{NoSlash}
use ds_lab_assignment.Dbms.Remove.Laws.{NoFaults}
use ds_lab_assignment.Dbms.Account.{Account, SameOthers}
use ds_lab_assignment.Dbms.Ops.Laws.{read_userdata}
use ds_lab_assignment.Dbms.Deletions.{get_first}
use ds_lab_assignment.Dbms.Updates.{modify_Updated}
use ds_lab_assignment.Services.World.{Peer, refuses, World, Stack, user_entry}
use ds_lab_assignment.Services.Client.Laws.{clt_send_message_refused}
use ds_lab_assignment.Services.Pending.{disconnected, send_pending, aux_connect_send_pend_msgs}
use ds_lab_assignment.Services.Users.{srv_connect_request, pend_entry}
use ds_lab_assignment.Services.Users.Connect.{online}

-- a message in front of others in the directory
abbrev pub in_front : Entry → Entries → Entries
in_front m more = entry (decimal m.msg.id) (file (image m)) more

module _ (s : Stack) (e m : Entry) (more : Entries) (name : NoSlash e.username)
    (is_ud : e.type ≡ EntryType.ud) (bound : m.msg.id < 2 ^ 32) (peers : List Peer) (fuel : ℕ) where
  -- the loop, which stops at the first message
  loop_refused :
      (w : World)
      → NoFaults w.fs.faulty
      → Account w.fs e.username e (in_front m more)
      → w.peers ≡ refuses ∷ peers
      → (fs' : Fs) × (aux_connect_send_pend_msgs s (suc fuel) (pend_entry s e.username) w
          ≡ some (pos srv_err_send_any, record w { fs = fs'; peers = peers }))
        × Account fs' e.username (disconnected e) (in_front m more)
        × SameOthers e.username w.fs fs'
  unfolding aux_connect_send_pend_msgs send_pending
  loop_refused w sound a refused =
      let first = get_first w.fs (pend_entry s e.username) e m more sound name refl bound a in
      let unsent = clt_send_message_refused e e w sound name is_ud a.stored m.msg peers refused in
      let marked = modify_Updated w.fs (disconnected e) e (in_front m more) sound name is_ud a in
      (
        marked.after,
        ground (
          arith,
          read_userdata w.fs sound (user_entry s.entry e.username) name refl e a.stored,
          first,
          unsent,
          marked.result,
        ),
        marked.account,
        marked.others,
      )

module _ (s : Stack) (e m : Entry) (more : Entries) (name : NoSlash e.username)
    (is_ud : e.type ≡ EntryType.ud) (bound : m.msg.id < 2 ^ 32) (peers : List Peer) (fuel : ℕ) where
  -- No call of the file system fails, the client can be answered, and the username holds no slash. A
  -- user who is not connected and for whom messages wait, the first under an ID that is an unsigned
  -- int, connects from a known address with the digits of a port below 2 ^ 16, and the uninitialised
  -- `reply` was not 3 by chance. The user's listening thread refuses the connection. CONNECT answers
  -- 0 all the same, and ends with the user marked as disconnected, at the new address; nothing is sent,
  -- all messages still wait, and other users' tables are as they were.
  pub srv_connect_unreachable :
      (w : World) (ip port : ℕ)
      → NoFaults w.fs.faulty
      → w.writable ≡ true
      → Account w.fs e.username e (in_front m more)
      → e.user.status ≡ status_dcn
      → s.reply ≢ srv_err_cn_any
      → w.peer_ip ≡ some ip
      → port < 2 ^ 16
      → w.peers ≡ refuses ∷ peers
      → (fs' : Fs) × (srv_connect_request s (suc fuel) e.username (decimal port) w
          ≡ some (record w { fs = fs'; replies = w.replies ++ (0 ∷ []) ∷ []; peers = peers }))
        × Account fs' e.username (disconnected (online e ip port)) (in_front m more)
        × SameOthers e.username w.fs fs'
  unfolding srv_connect_request
  srv_connect_unreachable w ip port sound writable a off stale known small refused =
      let u = modify_Updated w.fs (online e ip port) e (in_front m more) sound name is_ud a in
      let cast = sym (str_to_num-uint (decimal port)) ∙ str_to_num-decimal port (omega arith) in
      let w' = record w { fs = u.after; replies = w.replies ++ (0 ∷ []) ∷ [] } in
      let (fs', stopped, account, others) =
        loop_refused s (online e ip port) m more name is_ud bound peers fuel w' u.sound u.account
          refused in
      (
        fs',
        ground (
          arith,
          read_userdata w.fs sound (user_entry s.entry e.username) name refl e a.stored,
          u.result,
          cast,
          off,
          stale,
          known,
          writable,
          stopped,
        ),
        account,
        λ v q ne. others v q ne ∙ u.others v q ne,
      )
