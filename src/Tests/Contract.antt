-- ===== src/Tests/Contract.antt =====
-- The server against its contract, from its first start: ann and bob register, ann connects and writes
-- to bob twice, and bob connects. Directories list new names first.
use ds_lab_assignment.Prelude.{
  ◌≡◌, ◌<◌, refl, ◌&&◌, not, true, false, Bool, inl, List, [], ◌∷◌, ◌++◌, none, some, Bytes, codes,
  pos, length, ltb, str_eq, arith,
}
use ds_lab_assignment.Util.Codes.{max_msg_size}
use ds_lab_assignment.Util.Decimal.{decimal}
use ds_lab_assignment.Util.ReadLine.{ReadEvent, byte, ends_line, Spelled, stop, char}
use ds_lab_assignment.Dbms.Fs.{Fs, dir, end, child}
use ds_lab_assignment.Services.World.{Peer, accepts, World}
use ds_lab_assignment.Server.Dispatch.{service_thread}
use ds_lab_assignment.Server.Start.{Os, listening, main}
use ds_lab_assignment.Contract.{Office, Call, Meeting, handle}
use ds_lab_assignment.Contract.Accounts.{Lucky}
use ds_lab_assignment.Contract.Wire.{Says, silent, says, words}
use ds_lab_assignment.Contract.Refines.{Proper, backlog, met_by, Ready}
use ds_lab_assignment.Contract.Runs.{Visit, taken_of, AllReady, AllMeet}
use ds_lab_assignment.Contract.Startup.{Fresh, Works, server_refines}
use ds_lab_assignment.Tests.Fixtures.{ann, bob, ann-NoSlash, bob-NoSlash, world, stack}

abbrev pub heard_as : Bytes → List ReadEvent → List ReadEvent
heard_as [] rest = byte 0 ∷ rest
heard_as (c ∷ s) rest = byte c ∷ heard_as s rest

abbrev pub wire : List Bytes → List ReadEvent
wire [] = []
wire (s ∷ ss) = heard_as s (wire ss)

abbrev plain : Bytes → Bool
plain [] = true
plain (c ∷ s) = not (ends_line c) && plain s

abbrev sendable : List Bytes → Bool
sendable [] = true
sendable (s ∷ ss) = ltb (length s) max_msg_size && (plain s && sendable ss)

heard_as-Spelled :
    (s : Bytes) (rest : List ReadEvent) → plain s ≡ true → Spelled (heard_as s rest) s false rest
heard_as-Spelled [] rest p = stop refl
heard_as-Spelled (c ∷ s) rest p =
    char (ground (arith, p)) (heard_as-Spelled s rest (ground (arith, p)))

pub wire-Says : (ss : List Bytes) → sendable ss ≡ true → Says (wire ss) ss []
wire-Says [] p = silent
wire-Says (s ∷ ss) p =
    says (ground (arith, p)) (heard_as-Spelled s (wire ss) (ground (arith, p)))
      (wire-Says ss (ground (arith, p)))

abbrev pub meeting : Meeting
meeting = record { ip = 9; chance = record { ip = 0; port = 0 }; place = λ _ _. 0 }

pub lucky : Lucky (stack 0 0) meeting
lucky = record {
  status = refl;
  ip = refl;
  port = refl;
  reply = λ e. absurd (omega (arith, e));
  send_msg_reply = refl;
}

abbrev pub visit : Call → List Peer → Visit
visit call peers = record {
  meeting = meeting;
  call = call;
  taken = record { stack = stack 0 0; world = world (wire (words call)) peers };
}

abbrev visits : List Visit
visits =
    visit (Call.register ann) []
    ∷ visit (Call.register bob) []
    ∷ visit (Call.connect ann 4000) []
    ∷ visit (Call.send ann bob (codes "hello")) []
    ∷ visit (Call.send ann bob (codes "again")) []
    ∷ visit (Call.connect bob 4001) (accepts 4 ∷ accepts 2 ∷ accepts 4 ∷ accepts 2 ∷ [])
    ∷ []

abbrev pub nobody : Office
nobody name = none

abbrev all_work : Os
all_work = record {
  socket = pos 3;
  setsockopt = pos 0;
  bind = λ port. pos 0;
  listen = pos 0;
  pthread_create = λ i. pos 0;
  gethostname = pos 0;
  gethostbyname = some 7;
}

all_work-Works : Works all_work 8080
all_work-Works = record {
  socket = refl;
  setsockopt = refl;
  bind = refl;
  listen = refl;
  pthread_create = λ i. refl;
  gethostname = refl;
  ip = 7;
  gethostbyname = refl;
}

abbrev empty : Fs
empty = record { root = dir end; faulty = λ _ _. false; place = λ _ _. 0 }

empty-Fresh : Fresh empty nobody
unfolding child
empty-Fresh = record {
  sound = λ _ _. refl;
  entries = end;
  here = refl;
  none_yet = refl;
  nobody = λ name. refl;
}

pub ready :
    (office : Office) (call : Call) (peers : List Peer)
    → Proper call
    → sendable (words call) ≡ true
    → backlog call office < 5
    → peers ≡ met_by meeting call office ++ []
    → Ready (stack 0 0) 5 meeting call office (world (wire (words call)) peers)
ready office call peers proper sendable enough reached = record {
  lucky = lucky;
  writable = refl;
  known = refl;
  place = refl;
  proper = proper;
  enough = enough;
  left = [];
  spelled = wire-Says (words call) sendable;
  peers = [];
  reached = reached;
}

visits-AllReady : AllReady 5 visits nobody
unfolding handle str_eq decimal
visits-AllReady = (
  λ _ _. refl,
  ready _ (Call.register ann) [] ann-NoSlash refl (omega arith) refl,
  (
    λ _ _. refl,
    ready _ (Call.register bob) [] bob-NoSlash refl (omega arith) refl,
    (
      λ _ _. refl,
      ready _ (Call.connect ann 4000) [] (ann-NoSlash, omega arith) refl (omega arith) refl,
      (
        λ _ _. refl,
        ready _ (Call.send ann bob (codes "hello")) [] (ann-NoSlash, bob-NoSlash) refl (omega arith)
            refl,
        (
          λ _ _. refl,
          ready _ (Call.send ann bob (codes "again")) [] (ann-NoSlash, bob-NoSlash) refl
              (omega arith) refl,
          (
            λ _ _. refl,
            ready _ (Call.connect bob 4001) (accepts 4 ∷ accepts 2 ∷ accepts 4 ∷ accepts 2 ∷ [])
                (bob-NoSlash, omega arith) refl (omega arith) refl,
            tt,
          ),
        ),
      ),
    ),
  ),
)

server_refines_example :
    (fs' : Fs) × (main all_work (codes "server" ∷ codes "-p" ∷ decimal 8080 ∷ []) empty
      ≡ listening none 8080 all_work fs')
    × (ws : List World) × (service_thread 5 (taken_of visits) fs'.root ≡ some ws)
    × AllMeet fs'.root nobody visits ws
server_refines_example =
    server_refines all_work 8080 (codes "server") empty nobody 5 visits all_work-Works (omega arith)
      (inl empty-Fresh) visits-AllReady
