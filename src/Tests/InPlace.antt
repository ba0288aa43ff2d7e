-- ===== src/Tests/InPlace.antt =====
-- Rounds in which writes of structs, or removals, fail.
use ds_lab_assignment.Prelude.{
  ◌≡◌, refl, true, false, List, [], ◌∷◌, All, some, Bytes, pos, codes, arith,
}
use ds_lab_assignment.Util.Types.{Entry, EntryType}
use ds_lab_assignment.Util.Decimal.{decimal}
use ds_lab_assignment.Dbms.Fs.{Fs, write_entry, remove_entry, file, image, end, entry, components}
use ds_lab_assignment.Dbms.Paths.{entry_path}
use ds_lab_assignment.Dbms.InPlace.{InPlace}
use ds_lab_assignment.Services.World.{accepts, refuses, World}
use ds_lab_assignment.Server.Dispatch.{serve, service_thread}
use ds_lab_assignment.Server.InPlace.{service_thread-main-InPlace}
use ds_lab_assignment.Server.Start.{Os, main}
use ds_lab_assignment.Contract.{Call}
use ds_lab_assignment.Contract.Wire.{words}
use ds_lab_assignment.Contract.Runs.{Visit, taken_of}
use ds_lab_assignment.Contract.Isolation.{
  Isolated, serve-Isolated, Elsewhere, SameTable, service_thread-SameTable,
}
use ds_lab_assignment.Tests.Contract.{wire, wire-Says, meeting}
use ds_lab_assignment.Tests.Fixtures.{
  ann-ne-bob, ann, bob, bob-NoSlash, bob_data, database_with, world, stack,
}

abbrev letter : Entry
letter = record bob_data {
  type = EntryType.p_msg;
  msg = record { sender = ann; id = 12; content = codes "hi" };
}

-- the database, with a message that is pending for bob, on a disk that is full
abbrev full_disk : Fs
full_disk = record (database_with (entry (decimal 12) (file (image letter)) end)) {
  faulty = λ call path. elim call [ write_entry ↦ true | _ ↦ false ];
}

full_disk-InPlace : InPlace full_disk
unfolding components entry_path decimal
full_disk-InPlace = record { placed = (((refl, (tt, tt)), ((refl, ((refl, tt), tt)), tt)), tt) }

abbrev to_bob : Call
to_bob = Call.send ann bob (codes "hey")

abbrev bob_joins : Call
bob_joins = Call.connect bob 4001

abbrev asks : Call → World
asks call = record (world (wire (words call)) (accepts 4 ∷ refuses ∷ [])) { fs = full_disk }

abbrev visit : Call → World → Visit
visit call w = record {
  meeting = meeting;
  call = call;
  taken = record { stack = stack 0 0; world = w };
}

-- The disk is full in the first request, and nothing can be removed in the second.
abbrev visits : List Visit
visits =
    visit to_bob (asks to_bob)
    ∷ visit bob_joins (record (asks bob_joins) {
      fs = record full_disk { faulty = λ call path. elim call [ remove_entry ↦ true | _ ↦ false ] };
    })
    ∷ []

-- a system in which a server can start
abbrev works : Os
works = record {
  socket = pos 3;
  setsockopt = pos 0;
  bind = λ port. pos 0;
  listen = pos 0;
  pthread_create = λ i. pos 0;
  gethostname = pos 0;
  gethostbyname = some 7;
}

abbrev argv : List Bytes
argv = codes "server" ∷ codes "-p" ∷ codes "8080" ∷ []

service_thread-main-InPlace_example :
    InPlace (main works argv full_disk).fs
    × ((ws : List World) × (service_thread 3 (taken_of visits) (main works argv full_disk).fs.root
          ≡ some ws)
        × All (λ w. InPlace w.fs) ws)
service_thread-main-InPlace_example =
    service_thread-main-InPlace works argv full_disk 3 (taken_of visits)
      (refl, omega arith, (refl, omega arith, tt)) full_disk-InPlace

serve-Isolated_example : Isolated bob (asks bob_joins) (serve (stack 0 0) 3 (asks bob_joins))
unfolding decimal
serve-Isolated_example =
    serve-Isolated (stack 0 0) 3 bob_joins (asks bob_joins) [] full_disk-InPlace
      (wire-Says (words bob_joins) refl) bob-NoSlash refl (omega arith)

about_bob : All (Elsewhere ann 3) visits
unfolding decimal
about_bob = (
  record {
    left = [];
    spelled = wire-Says (words to_bob) refl;
    plain = bob-NoSlash;
    other = ann-ne-bob;
    ends = refl;
    few = omega arith;
  },
  (
    record {
      left = [];
      spelled = wire-Says (words bob_joins) refl;
      plain = bob-NoSlash;
      other = ann-ne-bob;
      ends = refl;
      few = omega arith;
    },
    tt,
  ),
)

service_thread-SameTable_example :
    (ws : List World) × (service_thread 3 (taken_of visits) full_disk.root ≡ some ws)
    × All (λ w. SameTable ann full_disk w.fs) ws
service_thread-SameTable_example =
    service_thread-SameTable ann 3 visits full_disk full_disk-InPlace about_bob
