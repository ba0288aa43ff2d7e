-- ===== src/Contract/Join.antt =====
-- CONNECT of src/services.c against the contract, where no call of the file system fails and a
-- listening thread answers exactly if its user is connected.
use ds_lab_assignment.Prelude.{
  ℕ, ◌^◌, ◌<◌, ◌≡◌, refl, sym, ◌∙◌, if◌then◌else◌, true, false, List, [], ◌∷◌, ◌++◌, append-nil,
  Option, none, some, Bytes, length, arith, Bool-cases, inl, inr,
}
use mathlib.Core.Path.{subst}
use ds_lab_assignment.Util.Decimal.{decimal}
use ds_lab_assignment.Util.StrToNum.Laws.{str_to_num-decimal, str_to_num-uint}
use ds_lab_assignment.Dbms.Paths.Laws.{NoSlash}
use ds_lab_assignment.Dbms.Ops.Laws.{read_userdata}
use ds_lab_assignment.Services.World.{Peer, World, Stack, user_entry}
use ds_lab_assignment.Services.Users.{srv_connect_request}
use ds_lab_assignment.Services.Users.Connect.{online, srv_connect-Unknown}
use ds_lab_assignment.Contract.{
  Address, User, Office, with_user, Call, Outcome, Meeting, deliveries, with_address, held, join,
  joined, handle,
}
use ds_lab_assignment.Contract.Holds.{Keeps, HoldsAt, Holds, Holds-with_user}
use ds_lab_assignment.Contract.Mails.{meets}
use ds_lab_assignment.Contract.Accounts.{Lucky, Meets}
use ds_lab_assignment.Contract.Written.{rewritten, deliver_all}

-- the listening threads that CONNECT meets
abbrev pub join_peers : Bytes → User → Office → List Peer
join_peers name user office = meets (with_user name (some user) office) user.pending

abbrev pub join_meets : Bytes → Address → Office → Option User → List Peer
join_meets name a office none = []
join_meets name a office (some user) = join_peers name (held a user) office

-- the messages that wait for a user
abbrev pub waiting_for : Option User → ℕ
waiting_for none = 0
waiting_for (some user) = length user.pending

-- The request ends, in a world that meets the contract.
pub record Ends (w : World) (out : Outcome) (r : Option World) : Type 0 where
  pub after : World
  pub result : r ≡ some after
  pub meets : Meets w out after

module _ (s : Stack) (m : Meeting) (lucky : Lucky s m) (w : World) (office : Office)
    (h : Holds w.fs office) (writable : w.writable ≡ true) (known : w.peer_ip ≡ some m.ip)
    (name : Bytes) (slash : NoSlash name) (port : ℕ) (small : port < 2 ^ 16) (fuel : ℕ)
    (peers : List Peer) where
  abbrev a : Address
  a = record { ip = m.ip; port = port }

  again :
      (user : User)
      → Keeps w.fs name user
      → user.connected ≡ true
      → length user.pending < fuel
      → w.peers ≡ meets (with_user name (some user) office) user.pending ++ peers
      → Ends w (join name 2 user office) (srv_connect_request s fuel name (decimal port) w)
  unfolding srv_connect_request
  again user k on enough reached =
      let same = Holds-with_user name (some user) h (λ v q ne. refl) h.sound k in
      let w' = record w { replies = w.replies ++ (2 ∷ []) ∷ [] } in
      let (fs', sent, after, others, sound) =
        deliver_all s fuel name user (with_user name (some user) office) w' peers same slash k
          enough reached in
      record {
        after = record w' {
          fs = fs';
          peers = peers;
          frames =
              w.frames ++ deliveries (with_user name (some user) office) user.address user.pending;
        };
        result = ground (
          arith,
          read_userdata w.fs h.sound (user_entry s.entry name) slash refl k.struct k.account.stored,
          k.describes.status,
          on,
          writable,
          sent,
        );
        meets = record {
          holds = Holds-with_user name (some (record user { pending = [] })) h others sound after;
          replies = refl;
          frames = refl;
        };
      }

  anew :
      (user : User)
      → Keeps w.fs name user
      → user.connected ≡ false
      → length user.pending < fuel
      → w.peers ≡ meets (with_user name (some (with_address a user)) office) user.pending ++ peers
      → Ends w
          (join name 0 (with_address a user) office)
          (srv_connect_request s fuel name (decimal port) w)
  unfolding srv_connect_request
  anew user k off enough reached =
      let user' = with_address a user in
      let d = k.describes in
      let e = online k.struct m.ip port in
      let r =
        rewritten w.fs name user user' e h.sound slash k
          (record {
            named = d.named;
            is_ud = d.is_ud;
            last = d.last;
            bound = d.bound;
            status = refl;
            ip = refl;
            port = refl;
          })
          refl in
      let h1 = Holds-with_user name (some user') h r.others r.sound r.keeps in
      let w' = record w { fs = r.after; replies = w.replies ++ (0 ∷ []) ∷ [] } in
      let cast = sym (str_to_num-uint (decimal port)) ∙ str_to_num-decimal port (omega arith) in
      let (fs', sent, after, others, sound) =
        deliver_all s fuel name user' (with_user name (some user') office) w' peers h1 slash r.keeps
          enough reached in
      record {
        after = record w' {
          fs = fs';
          peers = peers;
          frames = w.frames ++ deliveries (with_user name (some user') office) a user.pending;
        };
        result = ground (
          arith,
          read_userdata w.fs h.sound (user_entry s.entry name) slash refl k.struct k.account.stored,
          d.status,
          off,
          cast,
          known,
          lucky.reply,
          r.result,
          writable,
          sent,
        );
        meets = record {
          holds =
              Holds-with_user name (some (record user' { pending = [] })) h
                (λ v q ne. others v q ne ∙ r.others v q ne) sound after;
          replies = refl;
          frames = refl;
        };
      }

  connect_from :
      (user : Option User)
      → HoldsAt w.fs name user
      → waiting_for user < fuel
      → w.peers ≡ join_meets name a office user ++ peers
      → Ends w (joined name a office user) (srv_connect_request s fuel name (decimal port) w)
  connect_from none here enough reached = record {
    after = record w { replies = w.replies ++ (1 ∷ []) ∷ [] };
    result = srv_connect-Unknown s fuel name (decimal port) w h.sound slash writable here;
    meets = record { holds = h; replies = refl; frames = sym (append-nil w.frames) };
  }
  connect_from (some user) k enough reached = elim (Bool-cases user.connected) [
    | inl on ↦
        let same : held a user ≡ user = simp on refl in
        let code : (if user.connected then 2 else 0) ≡ 2 = simp on refl in
        subst
          (λ c.
            Ends w (join name c (held a user) office)
              (srv_connect_request s fuel name (decimal port) w))
          (sym code)
          (subst
            (λ u. Ends w (join name 2 u office) (srv_connect_request s fuel name (decimal port) w))
            (sym same)
            (again user k on enough
              (subst (λ u. w.peers ≡ join_peers name u office ++ peers) same reached)))
    | inr off ↦
        let same : held a user ≡ with_address a user = simp off refl in
        let code : (if user.connected then 2 else 0) ≡ 0 = simp off refl in
        subst
          (λ c.
            Ends w (join name c (held a user) office)
              (srv_connect_request s fuel name (decimal port) w))
          (sym code)
          (subst
            (λ u. Ends w (join name 0 u office) (srv_connect_request s fuel name (decimal port) w))
            (sym same)
            (anew user k off enough
              (subst (λ u. w.peers ≡ join_peers name u office ++ peers) same reached)))
  ]

  pub connect_meets :
      waiting_for (office name) < fuel
      → w.peers ≡ join_meets name a office (office name) ++ peers
      → Ends w
          (handle m (Call.connect name port) office)
          (srv_connect_request s fuel name (decimal port) w)
  unfolding handle
  connect_meets = connect_from (office name) (h.at name slash)
