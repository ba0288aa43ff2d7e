-- ===== src/Contract/Mails.antt =====
-- The waiting messages of a user as the loop of `aux_connect_send_pend_msgs` (src/services.c) meets
-- them, where a listening thread answers exactly if its user is connected.
use ds_lab_assignment.Prelude.{
  ℕ, suc, ◌≡◌, refl, ap, if◌then◌else◌, List, [], ◌∷◌, ◌++◌, append_assoc, Option, none, some,
  Bytes, length, arith, Bool-cases, inl, inr,
}
use ds_lab_assignment.Util.Types.{Entry, Message}
use ds_lab_assignment.Util.Decimal.{decimal}
use ds_lab_assignment.Dbms.Fs.{Fs, image, file, entry}
use ds_lab_assignment.Dbms.Tables.{no_data}
use ds_lab_assignment.Services.World.{Peer, refuses, accepts}
use ds_lab_assignment.Services.Pending.Mail.{
  Mail, stored_in, ack_peers, acks, willing, delivered, Held, IsPending,
}
use ds_lab_assignment.Contract.{Address, User, Office, ack_to, deliveries}
use ds_lab_assignment.Contract.Holds.{files, Letters, HoldsAt, Holds}

-- the listening threads that acknowledgements and deliveries meet
abbrev pub ack_meets : Option User → List Peer
ack_meets none = []
ack_meets (some user) = if user.connected then accepts 2 ∷ [] else refuses ∷ []

abbrev pub meets : Office → List Message → List Peer
meets office [] = []
meets office (m ∷ ms) = accepts 4 ∷ (ack_meets (office m.sender) ++ meets office ms)

-- The sender of a message, as the database and its listening thread show it.
pub record Sender (fs : Fs) (name : Bytes) (user : Option User) : Type 0 where
  pub struct : Option Entry
  pub spare : Option ℕ
  pub held : Held fs name struct
  pub meets_it : ack_peers struct spare ≡ ack_meets user
  pub acked : (id : ℕ) → acks struct spare id ≡ ack_to user id

pub acknowledges :
    (fs : Fs) (name : Bytes) (user : Option User) → HoldsAt fs name user → Sender fs name user
acknowledges fs name none u = record {
  struct = none;
  spare = none;
  held = no_data fs name u;
  meets_it = refl;
  acked = λ id. refl;
}
acknowledges fs name (some user) k = elim (Bool-cases user.connected) [
  | inl on ↦ record {
    struct = some k.struct;
    spare = some 0;
    held = k.account.stored;
    meets_it = rw on refl;
    acked = λ id. ground (arith, on, k.describes.ip, k.describes.port);
  }
  | inr off ↦ record {
    struct = some k.struct;
    spare = none;
    held = k.account.stored;
    meets_it = rw off refl;
    acked = λ id. rw off refl;
  }
]

-- The messages as the loop takes them.
pub record Mails (fs : Fs) (name : Bytes) (office : Office) (es : List Entry) (ms : List Message)
    : Type 0 where
  pub mails : List Mail
  pub stored : stored_in mails ≡ files es
  pub pending : IsPending fs name mails
  pub met : (rest : List Peer) → willing mails rest ≡ meets office ms ++ rest
  pub sent :
      (e : Entry) (a : Address)
      → e.user.ip ≡ a.ip
      → e.user.port ≡ a.port
      → delivered e mails ≡ deliveries office a ms
  pub count : length mails ≡ length ms

pub in_turn :
    (fs : Fs) (name : Bytes) (office : Office) (es : List Entry) (ms : List Message)
    → Holds fs office
    → Letters name es ms
    → Mails fs name office es ms
in_turn fs name office [] [] h l = record {
  mails = [];
  stored = refl;
  pending = tt;
  met = λ rest. refl;
  sent = λ e a i p. refl;
  count = refl;
}
in_turn fs name office [] (m ∷ ms) h l = absurd l
in_turn fs name office (e ∷ es) [] h l = absurd l
in_turn fs name office (e ∷ es) (m ∷ ms) h (t, n, same, i, d, from, l) =
    let rest = in_turn fs name office es ms h l in
    let s = acknowledges fs e.msg.sender (office e.msg.sender) (h.at e.msg.sender from) in
    record {
      mails =
          (record { letter = e; sender = s.struct; spare = 0; ack_spare = s.spare }) ∷ rest.mails;
      stored = ap (entry (decimal e.msg.id) (file (image e))) rest.stored;
      pending = (t, n, i, rw rest.stored d, from, s.held, rest.pending);
      met = λ ps. ground (
        arith,
        s.meets_it,
        ap (λ (x : Message). ack_meets (office x.sender)) same,
        rest.met ps,
        append_assoc (ack_meets (office m.sender)) (meets office ms) ps,
      );
      sent = λ f a ip port. ground (
        arith,
        ip,
        port,
        same,
        s.acked e.msg.id,
        ap (λ (x : Message). ack_to (office x.sender) x.id) same,
        rest.sent f a ip port,
      );
      count = ap suc rest.count;
    }
