-- ===== src/Tests/Delivery.antt =====
-- ann writes to bob, who is away, disconnects, and bob connects.
use ds_lab_assignment.Prelude.{
  ◌≡◌, refl, true, false, str-cases, inl, inr, List, [], ◌∷◌, some, Bytes, codes, str_eq,
  str_eq_refl, arith,
}
use ds_lab_assignment.Util.Codes.{db_dir}
use ds_lab_assignment.Dbms.Fs.{Entries, end, entry, image, file, walk, child}
use ds_lab_assignment.Dbms.Paths.{table_name}
use ds_lab_assignment.Dbms.Paths.Laws.{table_name-injective}
use ds_lab_assignment.Dbms.Account.{Unknown}
use ds_lab_assignment.Util.Decimal.{decimal}
use ds_lab_assignment.Services.World.{accepts, refuses, World}
use ds_lab_assignment.Server.Dispatch.{serve, service_thread}
use ds_lab_assignment.Contract.{User, Office, with_user, Call, handle, accepted, message_to}
use ds_lab_assignment.Contract.Holds.{Keeps, Holds}
use ds_lab_assignment.Contract.Runs.{Visit, taken_of, AllReady}
use ds_lab_assignment.Contract.Join.{Ends}
use ds_lab_assignment.Contract.Wire.{words}
use ds_lab_assignment.Contract.Refines.{Ready, serve_meets}
use ds_lab_assignment.Util.Types.{Entry, EntryType, Message}
use ds_lab_assignment.Contract.Accepted.{SentLast, accepted_delivered}
use ds_lab_assignment.Tests.Fixtures.{
  ann, bob, ann_data, bob_data, database, database_with, ann-NoSlash, bob-NoSlash, ann-Account_with,
  bob-Account, stack,
}
use ds_lab_assignment.Tests.Contract.{visit, ready, nobody, meeting, lucky, wire-Says}

abbrev ann_user : User
ann_user = record {
  last_msg_id = 3;
  connected = true;
  address = record { ip = 7; port = 4000 };
  pending = [];
}

abbrev bob_user : User
bob_user = record {
  last_msg_id = 4294967294;
  connected = false;
  address = record { ip = 0; port = 0 };
  pending = [];
}

ann-Keeps : (pend : Entries) → Keeps (database_with pend) ann ann_user
ann-Keeps pend = record {
  struct = ann_data;
  letters = [];
  account = ann-Account_with pend;
  describes = record {
    named = refl;
    is_ud = refl;
    last = refl;
    bound = omega arith;
    status = refl;
    ip = refl;
    port = refl;
  };
  written = tt;
}

bob-Keeps : Keeps database bob bob_user
bob-Keeps = record {
  struct = bob_data;
  letters = [];
  account = bob-Account _;
  describes = record {
    named = refl;
    is_ud = refl;
    last = refl;
    bound = omega arith;
    status = refl;
    ip = refl;
    port = refl;
  };
  written = tt;
}

apart : (s name : Bytes) → str_eq name s ≡ false → str_eq (table_name s) (table_name name) ≡ false
apart s name ne = elim (str-cases (table_name s) (table_name name)) [
  | inl e ↦
      let same = table_name-injective s name e in
      let here : str_eq name s ≡ true = rw same (str_eq_refl name) in absurd (cc)
  | inr differ ↦ differ
]

others :
    (pend : Entries) (name : Bytes)
    → str_eq name ann ≡ false
    → str_eq name bob ≡ false
    → Unknown (database_with pend) name
unfolding walk child
others pend name a b = record {
  tables = (ann-Account_with pend).tables;
  db = (ann-Account_with pend).db;
  absent = ground (arith, str_eq_refl db_dir, apart ann name a, apart bob name b);
}

-- ann and bob, and what waits for bob
abbrev pair : User → Office
pair user = with_user ann (some ann_user) (with_user bob (some user) nobody)

pair-Holds :
    (pend : Entries) (user : User)
    → Keeps (database_with pend) bob user
    → Holds (database_with pend) (pair user)
pair-Holds pend user k = record {
  sound = λ _ _. refl;
  at = λ name slash. elim (str-cases name ann) [
    | inl e ↦ rw (e, str_eq_refl ann) (ann-Keeps pend)
    | inr a ↦ elim (str-cases name bob) [
      | inl e ↦ rw (a, e, str_eq_refl bob) k
      | inr b ↦ rw (a, b) (others pend name a b)
    ]
  ];
}

abbrev writes : Visit
writes = visit (Call.send ann bob (codes "hello")) []

abbrev leaves : Visit
leaves = visit (Call.disconnect ann) []

abbrev comes : Visit
comes = visit (Call.connect bob 4001) (accepts 4 ∷ refuses ∷ [])

all-AllReady : AllReady 5 (writes ∷ leaves ∷ comes ∷ []) (pair bob_user)
unfolding handle str_eq decimal
all-AllReady = (
  λ _ _. refl,
  ready _ writes.call [] (ann-NoSlash, bob-NoSlash) refl (omega arith) refl,
  (
    λ _ _. refl,
    ready _ leaves.call [] ann-NoSlash refl (omega arith) refl,
    (
      λ _ _. refl,
      ready _ comes.call (accepts 4 ∷ refuses ∷ []) (bob-NoSlash, omega arith) refl (omega arith)
          refl,
      tt,
    ),
  ),
)

accepted_delivered_example :
    (first : World) × (ws : List World) × (service_thread 5
        (taken_of (writes ∷ leaves ∷ comes ∷ []))
        database.root
      ≡ some (first ∷ ws))
    × (first.replies ≡ accepted 0)
    × SentLast
        (message_to
          (record { ip = 9; port = 4001 })
          (record { sender = ann; id = 0; content = codes "hello" }))
        ws
unfolding str_eq
accepted_delivered_example =
    accepted_delivered 5 database (pair bob_user) ann bob (codes "hello") ann_user bob_user writes
      (leaves ∷ []) comes 4001 (pair-Holds end bob_user bob-Keeps) refl refl refl refl refl
      (refl, tt) refl all-AllReady

-- a message that waits for bob, and its file
abbrev earlier : Message
earlier = record { sender = ann; id = 5; content = codes "hi" }

abbrev earlier_file : Entry
earlier_file = record bob_data { type = EntryType.p_msg; msg = earlier }

abbrev bob_waited_for : User
bob_waited_for = record bob_user { pending = earlier ∷ [] }

abbrev one_waits : Entries
one_waits = entry (decimal 5) (file (image earlier_file)) end

one_waits-Keeps : Keeps (database_with one_waits) bob bob_waited_for
unfolding child
one_waits-Keeps = record {
  struct = bob_data;
  letters = earlier_file ∷ [];
  account = bob-Account _;
  describes = record {
    named = refl;
    is_ud = refl;
    last = refl;
    bound = omega arith;
    status = refl;
    ip = refl;
    port = refl;
  };
  written = (refl, refl, refl, omega arith, refl, ann-NoSlash, tt);
}

abbrev second : World
second = record (writes.taken.world) { fs = database_with one_waits }

second-Ready : Ready (stack 0 0) 5 meeting writes.call (pair bob_waited_for) second
unfolding str_eq
second-Ready = record {
  lucky = lucky;
  writable = refl;
  known = refl;
  place = refl;
  proper = (ann-NoSlash, bob-NoSlash);
  enough = omega arith;
  left = [];
  spelled = wire-Says (words writes.call) refl;
  peers = [];
  reached = refl;
}

-- ann writes to bob, who is away and for whom a message waits
serve_meets_example :
    Ends second (handle meeting writes.call (pair bob_waited_for)) (serve (stack 0 0) 5 second)
serve_meets_example =
    serve_meets (stack 0 0) 5 meeting (pair bob_waited_for) second
      (pair-Holds one_waits bob_waited_for one_waits-Keeps) writes.call second-Ready

-- The new message is listed first: it goes out first.
in_front :
    (handle meeting
      (Call.connect bob 4001)
      (handle meeting writes.call (pair bob_waited_for)).office).frames
    ≡ message_to
        (record { ip = 9; port = 4001 })
        (record { sender = ann; id = 0; content = codes "hello" })
      ∷ (record { ip = 7; port = 4000; strings = codes "SEND_MESS_ACK" ∷ decimal 0 ∷ [] })
      ∷ message_to (record { ip = 9; port = 4001 }) earlier
      ∷ (record { ip = 7; port = 4000; strings = codes "SEND_MESS_ACK" ∷ decimal 5 ∷ [] })
      ∷ []
unfolding handle str_eq decimal
in_front = refl
