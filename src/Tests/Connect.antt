-- ===== src/Tests/Connect.antt =====
-- CONNECT at concrete worlds, with one message pending for each user.
use ds_lab_assignment.Prelude.{◌≡◌, refl, [], ◌∷◌, List, some, codes, str_eq, arith}
use ds_lab_assignment.Util.Types.{Entry, EntryType}
use ds_lab_assignment.Util.Decimal.{decimal}
use ds_lab_assignment.Dbms.Fs.{Fs, end, walk, child}
use ds_lab_assignment.Dbms.Remove.Laws.{NoFaults}
use ds_lab_assignment.Dbms.Account.{Account, SameOthers}
use ds_lab_assignment.Services.World.{accepts, refuses, World}
use ds_lab_assignment.Services.Users.Unreachable.{in_front, srv_connect_unreachable}
use ds_lab_assignment.Services.Pending.{disconnected}
use ds_lab_assignment.Services.Pending.Mail.{Mail, stored_in, delivered, IsPending}
use ds_lab_assignment.Services.Users.{srv_connect_request}
use ds_lab_assignment.Services.Users.Connect.{
  online, Waiting, srv_connect_lem, srv_connect_again, srv_connect_stale,
}
use ds_lab_assignment.Tests.Fixtures.{
  ann-ne-bob, ann, bob, ann_data, bob_data, database, database_with, database-NoFaults, ann-NoSlash,
  bob-NoSlash, ann-Account, bob-Account, world, stack,
}

-- a message from ann to bob
abbrev post : List Mail
post =
    (record {
      letter = record bob_data {
        type = EntryType.p_msg;
        msg = record { sender = ann; id = 5; content = codes "hello" };
      };
      sender = some ann_data;
      spare = 0;
      ack_spare = some 0;
    })
    ∷ []

-- bob's world, with that message and the listening threads of both
abbrev mailbox : World
mailbox = record (world [] (accepts 4 ∷ accepts 2 ∷ [])) { fs = database_with (stored_in post) }

mailbox-NoFaults : NoFaults mailbox.fs.faulty
mailbox-NoFaults _ _ = refl

post-IsPending : IsPending mailbox.fs bob post
unfolding walk child str_eq
post-IsPending = (refl, refl, omega arith, refl, ann-NoSlash, refl, tt)

bob-Waiting : Waiting mailbox bob_data post []
bob-Waiting = record {
  sound = mailbox-NoFaults;
  writable = refl;
  name = bob-NoSlash;
  is_ud = refl;
  account = bob-Account (stored_in post);
  pending = post-IsPending;
  reached = refl;
}

ann-Waiting : Waiting (world [] []) ann_data [] []
ann-Waiting = record {
  sound = database-NoFaults;
  writable = refl;
  name = ann-NoSlash;
  is_ud = refl;
  account = ann-Account;
  pending = tt;
  reached = refl;
}

srv_connect_lem_example :
    (fs' : Fs) × (srv_connect_request (stack 0 0) 2 bob (decimal 5000) mailbox
      ≡ some (record mailbox {
        fs = fs';
        replies = (0 ∷ []) ∷ [];
        peers = [];
        frames = delivered (online bob_data 9 5000) post;
      }))
    × Account fs' bob (online bob_data 9 5000) end
    × SameOthers bob mailbox.fs fs'
srv_connect_lem_example =
    srv_connect_lem (stack 0 0) mailbox bob_data post [] bob-Waiting 2 (omega arith) 9 5000 refl
      (λ e. cc) refl (omega arith) (ann-ne-bob, tt)

srv_connect_again_example :
    (fs' : Fs) × (srv_connect_request (stack 0 0) 1 ann (codes "port") (world [] [])
      ≡ some (record (world [] []) { fs = fs'; replies = (2 ∷ []) ∷ []; peers = []; frames = [] }))
    × Account fs' ann ann_data end
    × SameOthers ann database fs'
srv_connect_again_example =
    srv_connect_again (stack 0 0) (world [] []) ann_data [] [] ann-Waiting 1 (omega arith)
      (codes "port") refl

srv_connect_stale_example :
    (fs' : Fs) × (srv_connect_request (stack 3 0) 2 bob (decimal 5000) mailbox
      ≡ some (record mailbox {
        fs = fs';
        replies = (3 ∷ []) ∷ [];
        peers = [];
        frames = delivered bob_data post;
      }))
    × Account fs' bob bob_data end
    × SameOthers bob mailbox.fs fs'
srv_connect_stale_example =
    srv_connect_stale (stack 3 0) mailbox bob_data post [] bob-Waiting 2 (omega arith) 9 5000 refl
      refl refl (omega arith)

-- a message for bob
abbrev letter : Entry
letter = record bob_data {
  type = EntryType.p_msg;
  msg = record { sender = ann; id = 5; content = codes "hello" };
}

-- bob's world, with that message, where his listening thread refuses
abbrev deaf : World
deaf = record (world [] (refuses ∷ [])) { fs = database_with (in_front letter end) }

srv_connect_unreachable_example :
    (fs' : Fs) × (srv_connect_request (stack 0 0) 1 bob (decimal 5000) deaf
      ≡ some (record deaf { fs = fs'; replies = (0 ∷ []) ∷ []; peers = [] }))
    × Account fs' bob (disconnected (online bob_data 9 5000)) (in_front letter end)
    × SameOthers bob deaf.fs fs'
srv_connect_unreachable_example =
    srv_connect_unreachable (stack 0 0) bob_data letter end bob-NoSlash refl (omega arith) [] 0 deaf
      9 5000 (λ _ _. refl) refl (bob-Account (in_front letter end)) refl (λ e. cc) refl
      (omega arith) refl
