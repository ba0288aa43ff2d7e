-- ===== src/Contract/Accounts.antt =====
-- REGISTER, UNREGISTER and DISCONNECT of src/services.c against the contract, where no call of the file
-- system fails.
use ds_lab_assignment.Prelude.{
  ◌≡◌, ◌≢◌, refl, sym, true, List, [], ◌∷◌, ◌++◌, append-nil, Option, none, some, Bytes, arith,
  Bool-cases, inl, inr,
}
use mathlib.Core.Path.{subst}
use ds_lab_assignment.Util.Codes.{gen_success, srv_success, srv_err_cn_any, status_dcn}
use ds_lab_assignment.Util.Types.{Request}
use ds_lab_assignment.Util.ReadLine.{ReadEvent}
use ds_lab_assignment.Dbms.Paths.Laws.{NoSlash}
use ds_lab_assignment.Dbms.Account.{Account, SameOthers}
use ds_lab_assignment.Dbms.Ops.Laws.{read_userdata, read_userdata_missing}
use ds_lab_assignment.Dbms.Updates.{modify_Updated}
use ds_lab_assignment.Dbms.Tables.{
  no_data, db_user_exists_lem, db_creat_usr_tbl_lem, db_creat_usr_tbl_exists, db_del_usr_tbl_lem,
}
use ds_lab_assignment.Services.World.{World, Stack, receive, user_entry}
use ds_lab_assignment.Services.Users.{new_user, srv_register, srv_unregister, srv_disconnect}
use ds_lab_assignment.Services.Users.Sessions.{offline}
use ds_lab_assignment.Contract.{
  User, Office, with_user, Call, Outcome, Meeting, handle, new_member, away, registered,
  unregistered, left, answer,
}
use ds_lab_assignment.Contract.Holds.{files, Keeps, HoldsAt, Holds, Holds-with_user}

-- What a handler's uninitialised variables must hold by chance: the status of a new user and the
-- reply of a message's transmission are 0, and the reply of CONNECT is not 3.
pub record Lucky (s : Stack) (m : Meeting) : Type 0 where
  pub status : s.entry.user.status ≡ status_dcn
  pub ip : s.entry.user.ip ≡ m.chance.ip
  pub port : s.entry.user.port ≡ m.chance.port
  pub reply : s.reply ≢ srv_err_cn_any
  pub send_msg_reply : s.send_msg_reply ≡ srv_success

-- The world behind a request that left, answered and sent what the contract says.
pub record Meets (w : World) (out : Outcome) (after : World) : Type 0 where
  pub holds : Holds after.fs out.office
  pub replies : after.replies ≡ w.replies ++ out.replies
  pub frames : after.frames ≡ w.frames ++ out.frames

pub Meets-path : {w : World} {out : Outcome} {a b : World} → a ≡ b → Meets w out b → Meets w out a
Meets-path {w} {out} e = subst (Meets w out) (sym e)

module _ (s : Stack) (m : Meeting) (lucky : Lucky s m) (request : Request) (w : World)
    (office : Office) (h : Holds w.fs office) (writable : w.writable ≡ true) (name : Bytes)
    (slash : NoSlash name) (rest : List ReadEvent)
    (sent : receive request.username w
      ≡ record { result = gen_success; string = name; world = record w { input = rest } }) where
  register_from :
      (user : Option User)
      → HoldsAt w.fs name user
      → Meets w (registered m name office user) (srv_register s request w)
  unfolding srv_register
  register_from none here =
      let (fs', made, account, others, sound) =
        db_creat_usr_tbl_lem w.fs h.sound (new_user s name) slash refl here in
      let done : srv_register s request w
          ≡ record w { input = rest; fs = fs'; replies = w.replies ++ (0 ∷ []) ∷ [] } =
        ground (arith, sent, made, writable) in
      Meets-path done (record {
        holds = Holds-with_user name (some (new_member m)) h others sound (record {
          struct = new_user s name;
          letters = [];
          account = account;
          describes = record {
            named = refl;
            is_ud = refl;
            last = refl;
            bound = omega arith;
            status = lucky.status;
            ip = lucky.ip;
            port = lucky.port;
          };
          written = tt;
        });
        replies = refl;
        frames = sym (append-nil w.frames);
      })
  register_from (some user) k =
      let same =
        db_creat_usr_tbl_exists w.fs (new_user s name) k.struct (files k.letters) h.sound slash
          k.account in
      let done : srv_register s request w
          ≡ record w { input = rest; replies = w.replies ++ (1 ∷ []) ∷ [] } =
        ground (arith, sent, same, writable) in
      Meets-path done (record { holds = h; replies = refl; frames = sym (append-nil w.frames) })

  pub register_meets : Meets w (handle m (Call.register name) office) (srv_register s request w)
  unfolding handle
  register_meets = register_from (office name) (h.at name slash)

  unregister_from :
      (user : Option User)
      → HoldsAt w.fs name user
      → Meets w (unregistered name office user) (srv_unregister request w)
  unfolding srv_unregister
  unregister_from none here =
      let (_, absent) = db_user_exists_lem w.fs h.sound name slash in
      let done : srv_unregister request w
          ≡ record w { input = rest; replies = w.replies ++ (1 ∷ []) ∷ [] } =
        ground (arith, sent, absent here, writable) in
      Meets-path done (record { holds = h; replies = refl; frames = sym (append-nil w.frames) })
  unregister_from (some user) k =
      let (there, _) = db_user_exists_lem w.fs h.sound name slash in
      let (fs', gone, unknown, others, sound) =
        db_del_usr_tbl_lem w.fs name k.struct (files k.letters) h.sound slash k.account in
      let done : srv_unregister request w
          ≡ record w { input = rest; fs = fs'; replies = w.replies ++ (0 ∷ []) ∷ [] } =
        ground (arith, sent, there k.struct (files k.letters) k.account, gone, writable) in
      Meets-path done (record {
        holds = Holds-with_user name none h others sound unknown;
        replies = refl;
        frames = sym (append-nil w.frames);
      })

  pub unregister_meets : Meets w (handle m (Call.unregister name) office) (srv_unregister request w)
  unfolding handle
  unregister_meets = unregister_from (office name) (h.at name slash)

  disconnect_connected :
      (user : User)
      → Keeps w.fs name user
      → user.connected ≡ true
      → Meets w (answer 0 (with_user name (some (away user)) office)) (srv_disconnect s request w)
  unfolding srv_disconnect
  disconnect_connected user k on =
      let e = k.struct in
      let d = k.describes in
      let u =
        modify_Updated w.fs (offline e) e (files k.letters) h.sound
          (subst NoSlash (sym d.named) slash) d.is_ud
          (subst (λ v. Account w.fs v e (files k.letters)) (sym d.named) k.account) in
      let done : srv_disconnect s request w
          ≡ record w { input = rest; fs = u.after; replies = w.replies ++ (0 ∷ []) ∷ [] } =
        ground (
          arith,
          sent,
          read_userdata w.fs h.sound (user_entry s.entry name) slash refl e k.account.stored,
          d.status,
          on,
          u.result,
          writable,
        ) in
      Meets-path done (record {
        holds =
            Holds-with_user name (some (away user)) h
              (subst (λ v. SameOthers v w.fs u.after) d.named u.others) u.sound
              (record {
                struct = offline e;
                letters = k.letters;
                account =
                    subst (λ v. Account u.after v (offline e) (files k.letters)) d.named u.account;
                describes = record {
                  named = d.named;
                  is_ud = d.is_ud;
                  last = d.last;
                  bound = d.bound;
                  status = refl;
                  ip = refl;
                  port = refl;
                };
                written = k.written;
              });
        replies = refl;
        frames = sym (append-nil w.frames);
      })

  disconnect_from :
      (user : Option User)
      → HoldsAt w.fs name user
      → Meets w (left name office user) (srv_disconnect s request w)
  unfolding srv_disconnect
  disconnect_from none here =
      let missing =
        read_userdata_missing w.fs h.sound (user_entry s.entry name) slash refl
          (no_data w.fs name here) in
      let done : srv_disconnect s request w
          ≡ record w { input = rest; replies = w.replies ++ (1 ∷ []) ∷ [] } =
        ground (arith, sent, missing, writable) in
      Meets-path done (record { holds = h; replies = refl; frames = sym (append-nil w.frames) })
  disconnect_from (some user) k = elim (Bool-cases user.connected) [
    | inl on ↦ rw on (disconnect_connected user k on)
    | inr off ↦
        let done : srv_disconnect s request w
            ≡ record w { input = rest; replies = w.replies ++ (2 ∷ []) ∷ [] } =
          ground (
            arith,
            sent,
            read_userdata w.fs h.sound (user_entry s.entry name) slash refl k.struct
                k.account.stored,
            k.describes.status,
            off,
            writable,
          ) in
        rw off (
          Meets-path done
            (record { holds = h; replies = refl; frames = sym (append-nil w.frames) }))
  ]

  pub disconnect_meets :
      Meets w (handle m (Call.disconnect name) office) (srv_disconnect s request w)
  unfolding handle
  disconnect_meets = disconnect_from (office name) (h.at name slash)
