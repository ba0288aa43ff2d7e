-- ===== src/Services/Forward.antt =====
-- SEND to a user who is not connected, and CONNECT of that user later (`srv_send` and `srv_connect`
-- of src/services.c), where no call of the file system fails.
use ds_lab_assignment.Prelude.{ℕ, insert_at, List, [], Option, some, true}
use ds_lab_assignment.Util.Types.{Entry, Request}
use ds_lab_assignment.Util.Decimal.{decimal}
use ds_lab_assignment.Dbms.Fs.{Fs, Entries, names}
use ds_lab_assignment.Dbms.Account.{Account}
use ds_lab_assignment.Services.World.{Peer, World, Stack}
use ds_lab_assignment.Services.Pending.Mail.{Mail, stored_in, willing}
use ds_lab_assignment.Services.Send.{srv_send_request}
use ds_lab_assignment.Services.Send.Laws.{Ready, id, kept}

module _ (s : Stack) (request : Request) (w : World) {sender e : Entry} {mine : Entries}
    (xs : List Mail) (r : Ready request w sender e mine (stored_in xs)) (spare : ℕ)
    (ack_spare : Option ℕ) where
  -- how many of the pending messages the directory lists before the new one
  abbrev pub new_place : ℕ
  new_place = w.fs.place (decimal (id s request w r)) (names (stored_in xs))

  -- the new message among those that are pending
  abbrev pub all_mail : List Mail
  all_mail =
      insert_at new_place
        (record {
          letter = kept s request w r;
          sender = some sender;
          spare = spare;
          ack_spare = ack_spare;
        })
        xs

  -- the world of the recipient's request, behind that of the sender's
  abbrev pub later_world : ℕ → List Peer → World
  later_world ip peers = record (srv_send_request s request w) {
    writable = true;
    peer_ip = some ip;
    replies = [];
    peers = willing all_mail peers;
  }
