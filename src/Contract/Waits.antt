-- ===== src/Contract/Waits.antt =====
-- SEND of src/services.c to a user who is not connected, against the contract.
use ds_lab_assignment.Prelude.{
  ℕ, List, insert_at, ◌<◌, ◌^◌, ◌≡◌, refl, sym, ap, ◌∙◌, true, false, [], ◌∷◌, ◌++◌, append_assoc,
  append-nil, none, some, Bytes, arith,
}
use mathlib.Core.Path.{subst}
use ds_lab_assignment.Util.Types.{Entry, Message, Request}
use ds_lab_assignment.Util.Decimal.{decimal}
use ds_lab_assignment.Dbms.Fs.{Entries, names, child}
use ds_lab_assignment.Dbms.Paths.Laws.{NoSlash}
use ds_lab_assignment.Dbms.Account.{Account}
use ds_lab_assignment.Dbms.Updates.{store_Updated}
use ds_lab_assignment.Services.World.{World, Stack}
use ds_lab_assignment.Services.Send.{next_id, advanced, message_entry, srv_send_request}
use ds_lab_assignment.Contract.{
  User, Office, with_user, counted, post_waits, Meeting, ids, filed, following, has_id, answer,
}
use ds_lab_assignment.Contract.Holds.{files, Letters, Keeps, Holds, Holds-with_user}
use ds_lab_assignment.Contract.Letters.{
  files_free, files_taken, files-insert_at, names-files, Letters-insert_at, create_taken,
}
use ds_lab_assignment.Contract.Accounts.{Lucky, Meets, Meets-path}
use ds_lab_assignment.Contract.Post.{send_request, next_id-following, following_bound, count_up}

filed_as :
    (m : Meeting) (from content : Bytes) (i j : ℕ) (es : Entries) (waiting : List Message)
    → i ≡ j
    → names es ≡ ids waiting
    → insert_at
        (m.place (decimal i) (names es))
        (record { sender = from; id = i; content = content })
        waiting
      ≡ filed m (record { sender = from; id = j; content = content }) waiting
filed_as m from content i j es waiting same named = rw (same, named) refl

module _ (s : Stack) (m : Meeting) (lucky : Lucky s m) (w : World) (office : Office)
    (h : Holds w.fs office) (writable : w.writable ≡ true) (base : Request)
    (from to content : Bytes) (from_slash : NoSlash from) (slash : NoSlash to) where
  abbrev request : Request
  request = send_request base from to content

  -- the recipient is not connected, and the message waits
  pub post_off :
      (sender user : User)
      → Keeps w.fs from sender
      → Keeps w.fs to user
      → user.connected ≡ false
      → has_id (following user.last_msg_id) user.pending ≡ false
      → w.fs.place ≡ m.place
      → Meets w (post_waits m from to content user office) (srv_send_request s request w)
  unfolding srv_send_request
  post_off sender user here k off free place =
      let d = k.describes in
      let e = advanced k.struct in
      let (r, init) =
        count_up s m lucky w office h writable base from to content from_slash slash [] sender user
          here k in
      let msg : Entry = message_entry s request e in
      let same : msg.msg.id ≡ following user.last_msg_id =
        ap next_id d.last ∙ next_id-following user.last_msg_id d.bound in
      let none_there : child (decimal msg.msg.id) (files k.letters) ≡ none =
        files_free to msg.msg.id k.letters user.pending k.written
          (ap (λ i. has_id i user.pending) same ∙ free) in
      let stored =
        store_Updated r.after msg e (files k.letters) (r.place ∙ place) r.sound slash refl r.account
          none_there in
      let done : srv_send_request s request w ≡ record w {
        fs = stored.after;
        replies = (w.replies ++ (0 ∷ []) ∷ []) ++ (decimal msg.msg.id ++ 0 ∷ []) ∷ [];
      } =
        ground (arith, init, d.status, off, stored.result, writable) in
      let n = m.place (decimal msg.msg.id) (names (files k.letters)) in
      let bound : msg.msg.id < 2 ^ 32 =
        omega (arith, same, following_bound user.last_msg_id d.bound) in
      Meets-path done (record {
        holds =
            Holds-with_user to _ h (λ v q ne. stored.others v q ne ∙ r.others v q ne) stored.sound
              (record {
                struct = e;
                letters = insert_at n msg k.letters;
                account =
                    subst (λ es. Account stored.after to e es) (files-insert_at n k.letters msg)
                      stored.account;
                describes = record {
                  named = r.describes.named;
                  is_ud = r.describes.is_ud;
                  last = r.describes.last;
                  bound = r.describes.bound;
                  status = r.describes.status;
                  ip = r.describes.ip;
                  port = r.describes.port;
                };
                written =
                    subst (λ new. Letters to (insert_at n msg k.letters) new)
                      (filed_as m from content msg.msg.id (following user.last_msg_id)
                        (files k.letters) user.pending same
                        (names-files to k.letters user.pending k.written))
                      (Letters-insert_at n to k.letters user.pending msg k.written none_there refl
                        refl bound from_slash);
              });
        replies = ground (
          arith,
          same,
          append_assoc w.replies ((0 ∷ []) ∷ []) ((decimal msg.msg.id ++ 0 ∷ []) ∷ []),
        );
        frames = sym (append-nil w.frames);
      })

  -- the recipient is not connected, and the ID is taken
  pub post_taken :
      (sender user : User)
      → Keeps w.fs from sender
      → Keeps w.fs to user
      → user.connected ≡ false
      → has_id (following user.last_msg_id) user.pending ≡ true
      → Meets w
          (answer 2 (with_user to (some (counted user)) office))
          (srv_send_request s request w)
  unfolding srv_send_request
  post_taken sender user here k off taken =
      let d = k.describes in
      let e = advanced k.struct in
      let (r, init) =
        count_up s m lucky w office h writable base from to content from_slash slash [] sender user
          here k in
      let msg : Entry = message_entry s request e in
      let same : msg.msg.id ≡ following user.last_msg_id =
        ap next_id d.last ∙ next_id-following user.last_msg_id d.bound in
      let (other, there) =
        files_taken to msg.msg.id k.letters user.pending k.written
          (ap (λ i. has_id i user.pending) same ∙ taken) in
      let refused =
        create_taken r.after msg e other (files k.letters) r.sound slash refl r.account there in
      let done : srv_send_request s request w
          ≡ record w { fs = r.after; replies = w.replies ++ (2 ∷ []) ∷ [] } =
        ground (arith, init, d.status, off, refused, writable) in
      Meets-path done (record {
        holds = Holds-with_user to (some (counted user)) h r.others r.sound r.keeps;
        replies = refl;
        frames = sym (append-nil w.frames);
      })
