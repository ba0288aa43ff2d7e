-- ===== src/Tests/Forward.antt =====
-- A message from ann to bob, who is away and has one waiting, and bob's request to connect behind it. The
-- directory lists the new message first.
use ds_lab_assignment.Prelude.{List, [], ◌∷◌, some, codes}
use ds_lab_assignment.Util.Types.{Request}
use ds_lab_assignment.Dbms.Fs.{Fs}
use ds_lab_assignment.Dbms.Account.{Account}
use ds_lab_assignment.Services.Pending.Mail.{Mail, stored_in}
use ds_lab_assignment.Util.Types.{EntryType}
use ds_lab_assignment.Services.World.{World}
use ds_lab_assignment.Tests.Fixtures.{
  ann, bob, ann_data, bob_data, database_with, world, blank_request,
}

abbrev letter : Request
letter = record blank_request {
  recipient = bob;
  message = record { sender = ann; id = 0; content = codes "hello" };
}

-- a message that waits for bob
abbrev earlier : List Mail
earlier =
    (record {
      letter = record bob_data {
        type = EntryType.p_msg;
        msg = record { sender = ann; id = 5; content = codes "hi" };
      };
      sender = some ann_data;
      spare = 0;
      ack_spare = some 0;
    })
    ∷ []

abbrev start : World
start = record (world [] []) { fs = database_with (stored_in earlier) }
