-- ===== src/Tests/Fixtures.antt =====
-- Two users, ann who is connected and bob who is not, the database that holds them, and the world of
-- a request.
use ds_lab_assignment.Prelude.{
  ℕ, ◌≡◌, ◌≢◌, ap, refl, List, [], ◌∷◌, none, some, true, false, Bytes, codes, str_eq,
}
use ds_lab_assignment.Util.Codes.{db_dir, userdata_entry, pend_msgs_table, status_cn, status_dcn}
use ds_lab_assignment.Util.Types.{Entry, EntryType, Message, Request}
use ds_lab_assignment.Util.ReadLine.{ReadEvent, byte}
use ds_lab_assignment.Dbms.Fs.{Fs, image, Node, file, dir, Entries, end, entry, walk, child}
use ds_lab_assignment.Dbms.Paths.{table_name}
use ds_lab_assignment.Dbms.Paths.Laws.{NoSlash}
use ds_lab_assignment.Dbms.Remove.Laws.{NoFaults}
use ds_lab_assignment.Dbms.Account.{Account, Unknown}
use ds_lab_assignment.Services.World.{Peer, World, Stack}

abbrev pub ann : Bytes
ann = codes "ann"

abbrev pub bob : Bytes
bob = codes "bob"

abbrev pub eve : Bytes
eve = codes "eve"

pub ann-ne-bob : ann ≢ bob
unfolding str_eq
ann-ne-bob e = let told_apart : false ≡ true = ap (λ s. str_eq s bob) e in cc

abbrev pub blank_message : Message
blank_message = record { sender = []; id = 0; content = [] }

abbrev pub ann_data : Entry
ann_data = record {
  username = ann;
  type = EntryType.ud;
  user = record { status = status_cn; ip = 7; port = 4000; last_msg_id = 3 };
  msg = blank_message;
}

abbrev pub bob_data : Entry
bob_data = record {
  username = bob;
  type = EntryType.ud;
  user = record { status = status_dcn; ip = 0; port = 0; last_msg_id = 4294967294 };
  msg = blank_message;
}

abbrev table : Entry → Entries → Node
table e pend = dir (entry userdata_entry (file (image e)) (entry pend_msgs_table (dir pend) end))

-- the database, with the pending messages of bob
abbrev pub database_with : Entries → Fs
database_with pend = record {
  root = dir (
      entry db_dir
        (dir (
          entry (table_name ann) (table ann_data end)
            (entry (table_name bob) (table bob_data pend) end)))
        end);
  faulty = λ _ _. false;
  place = λ _ _. 0;
}

abbrev pub database : Fs
database = database_with end

pub database-NoFaults : NoFaults database.faulty
database-NoFaults _ _ = refl

pub ann-NoSlash : NoSlash ann
ann-NoSlash = (refl, (refl, (refl, tt)))

pub bob-NoSlash : NoSlash bob
bob-NoSlash = (refl, (refl, (refl, tt)))

pub eve-NoSlash : NoSlash eve
eve-NoSlash = (refl, (refl, (refl, tt)))

pub ann-Account_with : (pend : Entries) → Account (database_with pend) ann ann_data end
unfolding walk child str_eq
ann-Account_with _ = record {
  tables = _;
  db = refl;
  table_entries = _;
  table = refl;
  stored = refl;
  pending = refl;
}

pub ann-Account : Account database ann ann_data end
ann-Account = ann-Account_with end

pub bob-Account : (pend : Entries) → Account (database_with pend) bob bob_data pend
unfolding walk child str_eq
bob-Account _ = record {
  tables = _;
  db = refl;
  table_entries = _;
  table = refl;
  stored = refl;
  pending = refl;
}

pub eve-Unknown : Unknown database eve
unfolding walk child str_eq
eve-Unknown = record { tables = _; db = refl; absent = refl }

-- the bytes that a client sends
abbrev pub incoming : Bytes → List ReadEvent
incoming [] = byte 0 ∷ []
incoming (c ∷ s) = byte c ∷ incoming s

abbrev pub world : List ReadEvent → List Peer → World
world input peers = record {
  fs = database;
  input = input;
  writable = true;
  room = 0;
  peer_ip = some 9;
  replies = [];
  peers = peers;
  beyond = none;
  frames = [];
}

abbrev pub blank_request : Request
blank_request = record {
  op_code = [];
  username = [];
  client_port = [];
  recipient = [];
  message = blank_message;
}

abbrev pub stack : ℕ → ℕ → Stack
stack reply send_msg_reply = record {
  entry = bob_data;
  request = blank_request;
  reply = reply;
  send_msg_reply = send_msg_reply;
}
