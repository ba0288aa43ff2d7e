-- ===== src/Contract/Runs.antt =====
-- A service thread of app/server.c over any number of connections, against the contract.
use ds_lab_assignment.Prelude.{ℕ, ◌≡◌, refl, List, [], ◌∷◌, some}
use ds_lab_assignment.Dbms.Fs.{Fs, Node}
use ds_lab_assignment.Services.World.{World}
use ds_lab_assignment.Server.Dispatch.{Taken, over, service_thread}
use ds_lab_assignment.Contract.{Office, Call, Meeting, handle}
use ds_lab_assignment.Contract.Holds.{Holds, Holds-root}
use ds_lab_assignment.Dbms.Remove.Laws.{NoFaults}
use ds_lab_assignment.Contract.Accounts.{Meets}
use ds_lab_assignment.Contract.Refines.{Ready, serve_meets}

-- A request of a client, and the connection over which it comes.
pub record Visit : Type 0 where
  pub meeting : Meeting
  pub call : Call
  pub taken : Taken

abbrev pub taken_of : List Visit → List Taken
taken_of [] = []
taken_of (v ∷ vs) = v.taken ∷ taken_of vs

-- the contract over the requests before
abbrev pub behind : Visit → Office → Office
behind v office = (handle v.meeting v.call office).office

-- Every connection is ready for its request, at the users that the requests before it leave, and no
-- call of the file system fails in it.
abbrev pub AllReady : ℕ → List Visit → Office → Type 0
AllReady fuel [] office = Unit
AllReady fuel (v ∷ vs) office =
    NoFaults v.taken.world.fs.faulty
    × Ready v.taken.stack fuel v.meeting v.call office v.taken.world
    × AllReady fuel vs (behind v office)

-- Each request left what the contract says, and the next one went on from there.
abbrev pub AllMeet : Node → Office → List Visit → List World → Type 0
AllMeet root office [] [] = Unit
AllMeet root office [] (w ∷ ws) = ⊥
AllMeet root office (v ∷ vs) [] = ⊥
AllMeet root office (v ∷ vs) (w ∷ ws) =
    Meets (over root v.taken.world) (handle v.meeting v.call office) w
    × AllMeet w.fs.root (behind v office) vs ws

pub service_thread_meets :
    (fuel : ℕ) (visits : List Visit) (fs : Fs) (office : Office)
    → Holds fs office
    → AllReady fuel visits office
    → (ws : List World) × (service_thread fuel (taken_of visits) fs.root ≡ some ws)
      × AllMeet fs.root office visits ws
unfolding service_thread
service_thread_meets fuel [] fs office h r = ([], refl, tt)
service_thread_meets fuel (v ∷ vs) fs office h (sound, r, rs) =
    let start = over fs.root v.taken.world in
    let ready : Ready v.taken.stack fuel v.meeting v.call office start = record {
      lucky = r.lucky;
      writable = r.writable;
      known = r.known;
      place = r.place;
      proper = r.proper;
      enough = r.enough;
      left = r.left;
      spelled = r.spelled;
      peers = r.peers;
      reached = r.reached;
    } in
    let e =
      serve_meets v.taken.stack fuel v.meeting office start (Holds-root refl sound h) v.call
        ready in
    let (ws, done, all) =
      service_thread_meets fuel vs e.after.fs (behind v office) e.meets.holds rs in
    (e.after ∷ ws, rw (e.result, done) refl, (e.meets, all))
