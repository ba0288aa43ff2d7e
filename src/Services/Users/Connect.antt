-- ===== src/Services/Users/Connect.antt =====
-- What CONNECT of src/services.c does for a user with any number of pending messages, where no call
-- of the file system fails and the listening threads take what they are sent.
use ds_lab_assignment.Prelude.{
  ℕ, ◌^◌, ◌<◌, ◌≡◌, ◌≢◌, refl, sym, ◌∙◌, List, [], ◌∷◌, ◌++◌, length, All, some, true, Bytes, arith,
}
use ds_lab_assignment.Util.Codes.{srv_err_cn_any, status_cn, status_dcn}
use ds_lab_assignment.Util.Types.{Entry, EntryType}
use ds_lab_assignment.Util.Decimal.{decimal}
use ds_lab_assignment.Util.StrToNum.Laws.{str_to_num-decimal, str_to_num-uint}
use ds_lab_assignment.Dbms.Fs.{Fs, end}
use ds_lab_assignment.Dbms.Paths.Laws.{NoSlash}
use ds_lab_assignment.Dbms.Remove.Laws.{NoFaults}
use ds_lab_assignment.Dbms.Account.{Account, Unknown, SameOthers}
use ds_lab_assignment.Dbms.Tables.{no_data}
use ds_lab_assignment.Dbms.Ops.Laws.{read_userdata, read_userdata_missing}
use ds_lab_assignment.Dbms.Updates.{modify_Updated}
use ds_lab_assignment.Services.World.{Peer, World, Stack, user_entry}
use ds_lab_assignment.Services.Pending.{aux_connect_send_pend_msgs}
use ds_lab_assignment.Services.Pending.Mail.{
  Mail, stored_in, willing, delivered, IsPending, IsPending-others,
}
use ds_lab_assignment.Services.Pending.Laws.{aux_connect_send_pend_msgs_lem}
use ds_lab_assignment.Services.Users.{srv_connect_request, pend_entry}

-- The user's entry with a connection.
abbrev pub online : Entry → ℕ → ℕ → Entry
online e ip port = record e { user = record e.user { status = status_cn; ip = ip; port = port } }

-- What the theorems about CONNECT assume: no call fails, the client can be answered, and the user
-- `e` has the pending messages `xs`, whose listening threads come first among the peers.
pub record Waiting (w : World) (e : Entry) (xs : List Mail) (peers : List Peer) : Type 0 where
  pub sound : NoFaults w.fs.faulty
  pub writable : w.writable ≡ true
  pub name : NoSlash e.username
  pub is_ud : e.type ≡ EntryType.ud
  pub account : Account w.fs e.username e (stored_in xs)
  pub pending : IsPending w.fs e.username xs
  pub reached : w.peers ≡ willing xs peers

module _ (s : Stack) (w : World) (e : Entry) (xs : List Mail) (peers : List Peer)
    (r : Waiting w e xs peers) (fuel : ℕ) (enough : length xs < fuel) where
  -- No call of the file system fails, the client can be answered, the username holds no slash,
  -- and the listening thread that the pending messages go to takes them. The fuel is greater than the number of pending messages. A user who is not connected,
  -- and is not the sender of a pending message of their own, connects from a known address, with
  -- the digits of a port below 2 ^ 16. If the uninitialised `reply` was not 3 by chance, CONNECT
  -- ends, answers 0, writes that status, address and port to the user's entry, sends each message
  -- to that address, with an acknowledgement behind it if its sender has an entry and a thread that
  -- takes it, and leaves none pending.
  -- Other users' tables stay as they are.
  pub srv_connect_lem :
      (ip port : ℕ)
      → e.user.status ≡ status_dcn
      → s.reply ≢ srv_err_cn_any
      → w.peer_ip ≡ some ip
      → port < 2 ^ 16
      → All (λ x. x.letter.msg.sender ≢ e.username) xs
      → (fs' : Fs) × (srv_connect_request s fuel e.username (decimal port) w
          ≡ some (record w {
            fs = fs';
            replies = w.replies ++ (0 ∷ []) ∷ [];
            peers = peers;
            frames = w.frames ++ delivered (online e ip port) xs;
          }))
        × Account fs' e.username (online e ip port) end
        × SameOthers e.username w.fs fs'
  unfolding srv_connect_request
  srv_connect_lem ip port off stale known small foreign =
      let u =
        modify_Updated w.fs (online e ip port) e (stored_in xs) r.sound r.name r.is_ud r.account in
      let cast = sym (str_to_num-uint (decimal port)) ∙ str_to_num-decimal port (omega arith) in
      let w' = record w { fs = u.after; replies = w.replies ++ (0 ∷ []) ∷ [] } in
      let still = IsPending-others w.fs u.after e.username xs u.others foreign r.pending in
      let (fs', sent, account, others, _) =
        aux_connect_send_pend_msgs_lem s (online e ip port) r.name r.is_ud peers xs fuel
          (pend_entry s e.username) w' enough u.sound refl refl u.account still r.reached in
      (
        fs',
        ground (
          arith,
          read_userdata w.fs r.sound (user_entry s.entry e.username) r.name refl e r.account.stored,
          u.result,
          cast,
          off,
          stale,
          known,
          r.writable,
          sent,
        ),
        account,
        λ v q ne. others v q ne ∙ u.others v q ne,
      )

  -- No call of the file system fails, the client can be answered, the username holds no slash,
  -- and the listening thread that the pending messages go to takes them. The fuel is greater than the number of pending messages. CONNECT of a user who is
  -- connected already answers 2 and keeps the user's entry. It still sends each pending message,
  -- to the address in that entry, and leaves none pending. Other users' tables stay as they are.
  pub srv_connect_again :
      (client_port : Bytes)
      → e.user.status ≡ status_cn
      → (fs' : Fs) × (srv_connect_request s fuel e.username client_port w
          ≡ some (record w {
            fs = fs';
            replies = w.replies ++ (2 ∷ []) ∷ [];
            peers = peers;
            frames = w.frames ++ delivered e xs;
          }))
        × Account fs' e.username e end
        × SameOthers e.username w.fs fs'
  unfolding srv_connect_request
  srv_connect_again client_port on =
      let w' = record w { replies = w.replies ++ (2 ∷ []) ∷ [] } in
      let (fs', sent, account, others, _) =
        aux_connect_send_pend_msgs_lem s e r.name r.is_ud peers xs fuel (pend_entry s e.username) w'
          enough r.sound refl refl r.account r.pending r.reached in
      (
        fs',
        ground (
          arith,
          read_userdata w.fs r.sound (user_entry s.entry e.username) r.name refl e r.account.stored,
          on,
          r.writable,
          sent,
        ),
        account,
        others,
      )

  -- No call of the file system fails, the client can be answered, the username holds no slash,
  -- and the listening thread that the pending messages go to takes them. The fuel is greater than the number of pending messages. A user who is not connected
  -- connects from a known address, with the digits of a port below 2 ^ 16. If the uninitialised
  -- `reply` was 3, CONNECT answers 3 and keeps the user's entry, although every check of the
  -- request has passed. It still sends each pending message, to the address in that entry, and
  -- leaves none pending. Other users' tables stay as they are.
  pub srv_connect_stale :
      (ip port : ℕ)
      → e.user.status ≡ status_dcn
      → s.reply ≡ srv_err_cn_any
      → w.peer_ip ≡ some ip
      → port < 2 ^ 16
      → (fs' : Fs) × (srv_connect_request s fuel e.username (decimal port) w
          ≡ some (record w {
            fs = fs';
            replies = w.replies ++ (3 ∷ []) ∷ [];
            peers = peers;
            frames = w.frames ++ delivered e xs;
          }))
        × Account fs' e.username e end
        × SameOthers e.username w.fs fs'
  unfolding srv_connect_request
  srv_connect_stale ip port off stale known small =
      let cast = sym (str_to_num-uint (decimal port)) ∙ str_to_num-decimal port (omega arith) in
      let w' = record w { replies = w.replies ++ (3 ∷ []) ∷ [] } in
      let (fs', sent, account, others, _) =
        aux_connect_send_pend_msgs_lem s e r.name r.is_ud peers xs fuel (pend_entry s e.username) w'
          enough r.sound refl refl r.account r.pending r.reached in
      (
        fs',
        ground (
          arith,
          read_userdata w.fs r.sound (user_entry s.entry e.username) r.name refl e r.account.stored,
          cast,
          off,
          stale,
          known,
          r.writable,
          sent,
        ),
        account,
        others,
      )

-- No call of the file system fails, the name holds no slash, and the client can be answered.
-- CONNECT of a name without an account answers 1, with any fuel; it changes nothing in the
-- database and sends nothing to a listening thread.
pub srv_connect-Unknown :
    (s : Stack) (fuel : ℕ) (username client_port : Bytes) (w : World)
    → NoFaults w.fs.faulty
    → NoSlash username
    → w.writable ≡ true
    → Unknown w.fs username
    → srv_connect_request s fuel username client_port w
      ≡ some (record w { replies = w.replies ++ (1 ∷ []) ∷ [] })
unfolding srv_connect_request aux_connect_send_pend_msgs
srv_connect-Unknown s fuel username client_port w sound name writable a = ground (
  arith,
  read_userdata_missing w.fs sound (user_entry s.entry username) name refl
      (no_data w.fs username a),
  writable,
)
