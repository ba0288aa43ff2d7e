-- ===== src/Contract/Written.antt =====
-- A user's struct written anew, and a user's waiting messages sent, with what the contract says of it.
use ds_lab_assignment.Prelude.{
  ℕ, ◌<◌, ◌≡◌, refl, sym, ap, ◌∙◌, List, [], ◌++◌, some, Bytes, length, pos, arith,
}
use mathlib.Core.Path.{subst}
use ds_lab_assignment.Util.Codes.{dbms_success}
use ds_lab_assignment.Util.Types.{Entry, Mode}
use ds_lab_assignment.Dbms.Fs.{Fs, end}
use ds_lab_assignment.Dbms.Paths.Laws.{NoSlash}
use ds_lab_assignment.Dbms.Remove.Laws.{NoFaults}
use ds_lab_assignment.Dbms.Account.{Account, SameOthers}
use ds_lab_assignment.Dbms.Ops.{db_io_op_usr_ent}
use ds_lab_assignment.Dbms.Updates.{modify_Updated}
use ds_lab_assignment.Services.World.{Peer, World, Stack}
use ds_lab_assignment.Services.Pending.{aux_connect_send_pend_msgs}
use ds_lab_assignment.Services.Pending.Mail.{stored_in, IsPending}
use ds_lab_assignment.Services.Pending.Laws.{aux_connect_send_pend_msgs_lem}
use ds_lab_assignment.Services.Users.{pend_entry}
use ds_lab_assignment.Contract.{User, Office, deliveries}
use ds_lab_assignment.Contract.Holds.{files, Describes, Keeps, Holds}
use ds_lab_assignment.Contract.Mails.{meets, in_turn}

-- The user's struct is now `e`.
pub record Rewritten (fs : Fs) (name : Bytes) (user : User) (e : Entry) (letters : List Entry)
    : Type 0 where
  pub after : Fs
  pub result :
      db_io_op_usr_ent e Mode.modify fs ≡ record { result = dbms_success; entry = e; fs = after }
  pub account : Account after name e (files letters)
  pub describes : Describes e name user
  pub keeps : Keeps after name user
  pub others : SameOthers name fs after
  pub sound : NoFaults after.faulty
  pub place : after.place ≡ fs.place

-- the struct of a user whose waiting messages stay
pub rewritten :
    (fs : Fs) (name : Bytes) (user user' : User) (e : Entry)
    → NoFaults fs.faulty
    → NoSlash name
    → (k : Keeps fs name user) → Describes e name user'
    → user'.pending ≡ user.pending
    → Rewritten fs name user' e k.letters
rewritten fs name user user' e sound slash k d same =
    let u =
      modify_Updated fs e k.struct (files k.letters) sound (subst NoSlash (sym d.named) slash)
        d.is_ud (subst (λ v. Account fs v k.struct (files k.letters)) (sym d.named) k.account) in
    let account = subst (λ v. Account u.after v e (files k.letters)) d.named u.account in
    record {
      after = u.after;
      result = u.result;
      account = account;
      describes = d;
      keeps = record {
        struct = e;
        letters = k.letters;
        account = account;
        describes = d;
        written = rw same k.written;
      };
      others = subst (λ v. SameOthers v fs u.after) d.named u.others;
      sound = u.sound;
      place = u.place;
    }

-- `aux_connect_send_pend_msgs` sends all that waits for a user.
pub deliver_all :
    (s : Stack) (fuel : ℕ) (name : Bytes) (user : User) (office : Office) (w : World)
    (peers : List Peer)
    → Holds w.fs office
    → NoSlash name
    → Keeps w.fs name user
    → length user.pending < fuel
    → w.peers ≡ meets office user.pending ++ peers
    → (fs' : Fs) × (aux_connect_send_pend_msgs s fuel (pend_entry s name) w
        ≡ some (
          pos 0,
          record w {
            fs = fs';
            peers = peers;
            frames = w.frames ++ deliveries office user.address user.pending;
          },
        ))
      × Keeps fs' name (record user { pending = [] })
      × SameOthers name w.fs fs'
      × NoFaults fs'.faulty
deliver_all s fuel name user office w peers h slash k enough reached =
    let e = k.struct in
    let d = k.describes in
    let ms = in_turn w.fs name office k.letters user.pending h k.written in
    let account = subst (λ es. Account w.fs name e es) (sym ms.stored) k.account in
    let (fs', sent, after, others, sound) =
      aux_connect_send_pend_msgs_lem s e (subst NoSlash (sym d.named) slash) d.is_ud peers ms.mails
        fuel (pend_entry s name) w (omega (arith, ms.count)) h.sound refl (sym d.named)
        (subst (λ v. Account w.fs v e (stored_in ms.mails)) (sym d.named) account)
        (subst (λ v. IsPending w.fs v ms.mails) (sym d.named) ms.pending)
        (reached ∙ sym (ms.met peers)) in
    (
      fs',
      sent
          ∙ ap (λ fr. some (pos 0, record w { fs = fs'; peers = peers; frames = w.frames ++ fr }))
              (ms.sent e user.address d.ip d.port),
      record {
        struct = e;
        letters = [];
        account = subst (λ v. Account fs' v e end) d.named after;
        describes = record {
          named = d.named;
          is_ud = d.is_ud;
          last = d.last;
          bound = d.bound;
          status = d.status;
          ip = d.ip;
          port = d.port;
        };
        written = tt;
      },
      subst (λ v. SameOthers v w.fs fs') d.named others,
      sound,
    )
