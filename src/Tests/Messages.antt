-- ===== src/Tests/Messages.antt =====
-- SEND at concrete worlds.
use ds_lab_assignment.Prelude.{◌≡◌, ◌≢◌, refl, ap, [], ◌∷◌, ◌++◌, true, false, Bytes, codes, str_eq}
use ds_lab_assignment.Util.Codes.{srv_success}
use ds_lab_assignment.Util.Types.{Request}
use ds_lab_assignment.Util.Decimal.{decimal}
use ds_lab_assignment.Dbms.Fs.{Fs, image, file, end, child, insert_new}
use ds_lab_assignment.Dbms.Remove.Laws.{NoFaults}
use ds_lab_assignment.Dbms.Account.{Account, SameOthers}
use ds_lab_assignment.Services.World.{accepts, refuses, World}
use ds_lab_assignment.Services.Send.{advanced, srv_send_request}
use ds_lab_assignment.Services.Send.Laws.{Ready, id, kept, srv_send_offline}
use ds_lab_assignment.Services.Send.Online.{world_after, srv_send_online, srv_send_online_stored}
use ds_lab_assignment.Services.Pending.{disconnected}
use ds_lab_assignment.Services.Send.Refused.{srv_send_refused}
use ds_lab_assignment.Services.Send.Race.{advance_both, advance_both_lem}
use ds_lab_assignment.Tests.Fixtures.{
  ann, bob, ann_data, bob_data, database, database-NoFaults, ann-NoSlash, bob-NoSlash, ann-Account,
  bob-Account, world, blank_request, stack,
}

-- a message from one user to another
abbrev mail : Bytes → Bytes → Request
mail from to = record blank_request {
  recipient = to;
  message = record { sender = from; id = 0; content = codes "hello" };
}

-- the listening threads of both users take what they are sent
abbrev reached : World
reached = world [] (accepts 4 ∷ accepts 2 ∷ [])

to_bob : Ready (mail ann bob) (world [] []) ann_data bob_data end end
to_bob = record {
  sound = database-NoFaults;
  sender_name = ann-NoSlash;
  name = bob-NoSlash;
  to = refl;
  is_ud = refl;
  from_account = ann-Account;
  account = bob-Account end;
}

to_ann : Ready (mail bob ann) reached bob_data ann_data end end
to_ann = record {
  sound = database-NoFaults;
  sender_name = bob-NoSlash;
  name = ann-NoSlash;
  to = refl;
  is_ud = refl;
  from_account = bob-Account end;
  account = ann-Account;
}

bob-apart : bob ≢ ann
unfolding str_eq
bob-apart e = let told_apart : false ≡ true = ap (λ s. str_eq s ann) e in cc

srv_send_offline_example :
    (fs' : Fs) × (srv_send_request (stack 0 0) (mail ann bob) (world [] []) ≡ record (world [] []) {
      fs = fs';
      replies =
          (0 ∷ []) ∷ (decimal (id (stack 0 0) (mail ann bob) (world [] []) to_bob) ++ 0 ∷ []) ∷ [];
    })
    × Account fs' bob (advanced bob_data) (
        insert_new database.place
          (decimal (id (stack 0 0) (mail ann bob) (world [] []) to_bob))
          (file (image (kept (stack 0 0) (mail ann bob) (world [] []) to_bob)))
          end)
    × SameOthers bob database fs'
    × NoFaults fs'.faulty
unfolding child
srv_send_offline_example =
    srv_send_offline (stack 0 0) (mail ann bob) (world [] []) to_bob refl refl refl

srv_send_online_example :
    (fs' : Fs) × (srv_send_request (stack 0 0) (mail bob ann) reached
      ≡ world_after (stack 0 0) (mail bob ann) reached to_ann fs' [])
    × Account fs' ann (advanced ann_data) end
    × SameOthers ann database fs'
srv_send_online_example =
    srv_send_online (stack 0 0) (mail bob ann) reached to_ann 0 0 [] bob-apart refl refl refl refl

srv_send_online_stored_example :
    (fs' : Fs) × (srv_send_request (stack 0 1) (mail bob ann) reached
      ≡ world_after (stack 0 1) (mail bob ann) reached to_ann fs' [])
    × Account fs' ann (advanced ann_data) (
        insert_new database.place
          (decimal (id (stack 0 1) (mail bob ann) reached to_ann))
          (file (image (kept (stack 0 1) (mail bob ann) reached to_ann)))
          end)
    × SameOthers ann database fs'
unfolding child
srv_send_online_stored_example =
    srv_send_online_stored (stack 0 1) (mail bob ann) reached to_ann 0 0 [] bob-apart refl (λ e. cc)
      refl refl refl

-- ann is recorded as connected, and her listening thread is gone
abbrev gone : World
gone = world [] (refuses ∷ [])

to_ann_gone : Ready (mail bob ann) gone bob_data ann_data end end
to_ann_gone = record {
  sound = database-NoFaults;
  sender_name = bob-NoSlash;
  name = ann-NoSlash;
  to = refl;
  is_ud = refl;
  from_account = bob-Account end;
  account = ann-Account;
}

srv_send_refused_example :
    (fs' : Fs) × (srv_send_request (stack 0 0) (mail bob ann) gone ≡ record gone {
      fs = fs';
      peers = [];
      replies =
          (0 ∷ []) ∷ (decimal (id (stack 0 0) (mail bob ann) gone to_ann_gone) ++ 0 ∷ []) ∷ [];
    })
    × Account fs' ann (disconnected (advanced ann_data)) (
        insert_new database.place
          (decimal (id (stack 0 0) (mail bob ann) gone to_ann_gone))
          (file (image (kept (stack 0 0) (mail bob ann) gone to_ann_gone)))
          end)
    × SameOthers ann database fs'
unfolding child
srv_send_refused_example =
    srv_send_refused (stack 0 0) (mail bob ann) gone to_ann_gone [] refl refl refl refl

advance_both_lem_example :
    (fs1 : Fs) × (fs2 : Fs) × (advance_both ann_data bob_data bob (world [] []) ≡ (
      record {
        reply = srv_success;
        entry = advanced bob_data;
        world = record (world [] []) { fs = fs1 };
      },
      record {
        reply = srv_success;
        entry = advanced bob_data;
        world = record (world [] []) { fs = fs2 };
      },
    ))
    × Account fs2 bob (advanced bob_data) end
advance_both_lem_example =
    advance_both_lem ann_data bob_data bob_data bob end (world [] []) database-NoFaults bob-NoSlash
      refl refl (bob-Account end)
