-- ===== src/Contract/Isolation.antt =====
-- A request of a client changes nothing in the tables of users other than the one it is about, whichever
-- calls fail (services.c behind `service_thread` of app/server.c).
use ds_lab_assignment.Prelude.{
  ℕ, ◌<◌, ◌≡◌, ◌≢◌, refl, sym, ap, ◌∙◌, List, [], ◌∷◌, All, All-map, length, Option, none, some,
  Bytes, codes, str_eq, eq_of_str_eq,
}
use mathlib.Core.Path.{subst}
use ds_lab_assignment.Util.Codes.{db_dir}
use ds_lab_assignment.Util.ReadLine.{ReadEvent}
use ds_lab_assignment.Util.Types.{Request}
use ds_lab_assignment.Dbms.Fs.{Fs, FilePath, walk}
use ds_lab_assignment.Dbms.Fs.Laws.{Apart}
use ds_lab_assignment.Dbms.Account.{SameOthers}
use ds_lab_assignment.Dbms.Paths.{table_name}
use ds_lab_assignment.Dbms.Paths.Laws.{NoSlash, components-user_table_path, table_name-injective}
use ds_lab_assignment.Dbms.InPlace.{InPlace}
use ds_lab_assignment.Services.World.{World, Stack, receive}
use ds_lab_assignment.Services.InPlace.{Kept}
use ds_lab_assignment.Services.InPlace.Users.{
  srv_register-Kept, srv_unregister-Kept, srv_disconnect-Kept,
}
use ds_lab_assignment.Services.InPlace.Connect.{KeptEnd, srv_connect-Kept}
use ds_lab_assignment.Services.InPlace.Send.{recipient_read, srv_send-Kept}
use ds_lab_assignment.Server.Dispatch.{dispatch, serve, over, service_thread}
use ds_lab_assignment.Server.Replies.{serve-Ends}
use ds_lab_assignment.Contract.{Call}
use ds_lab_assignment.Contract.Wire.{Says, words}
use ds_lab_assignment.Contract.Refines.{Heard, heard, serve_op}
use ds_lab_assignment.Contract.Runs.{Visit, taken_of}

-- the user whose table the request may change
abbrev pub subject : Call → Bytes
subject (Call.register name) = name
subject (Call.unregister name) = name
subject (Call.connect name port) = name
subject (Call.disconnect name) = name
subject (Call.send from to content) = to

-- what is read in place of a member of the request
string_read :
    {string : Bytes} {strings : List Bytes} {rest : List ReadEvent} (w : World)
    (h : Heard w.input string strings rest) (old : Bytes)
    → (receive old w).string ≡ string
string_read w h old = ap (λ r. r.string) (h.read old w refl)

recipient_read_lem :
    {from to content : Bytes} {rest : List ReadEvent} (request : Request) (w : World)
    → Says w.input (from ∷ to ∷ content ∷ []) rest
    → recipient_read request w ≡ to
recipient_read_lem request w spelled =
    let user = heard spelled in
    let recipient = heard user.later in
    ap (λ r. (receive request.recipient r.world).string) (user.read request.message.sender w refl)
    ∙ string_read (record w { input = user.between }) recipient request.recipient

serve-KeptEnd :
    (s : Stack) (fuel : ℕ) (call : Call) (w : World) (left : List ReadEvent)
    → InPlace w.fs
    → Says w.input (words call) left
    → KeptEnd (subject call) w.fs (serve s fuel w)
unfolding dispatch str_eq
serve-KeptEnd s fuel (Call.register name) w left i spelled =
    let op = heard spelled in
    let w1 = record w { input = op.between } in
    let request = record s.request { op_code = codes "REGISTER" } in
    subst (λ u. KeptEnd u w.fs (serve s fuel w)) (string_read w1 (heard op.later) request.username)
      (subst (KeptEnd _ w.fs) (sym (serve_op s fuel w op)) (srv_register-Kept s request w1 i))
serve-KeptEnd s fuel (Call.unregister name) w left i spelled =
    let op = heard spelled in
    let w1 = record w { input = op.between } in
    let request = record s.request { op_code = codes "UNREGISTER" } in
    subst (λ u. KeptEnd u w.fs (serve s fuel w)) (string_read w1 (heard op.later) request.username)
      (subst (KeptEnd _ w.fs) (sym (serve_op s fuel w op)) (srv_unregister-Kept request w1 i))
serve-KeptEnd s fuel (Call.connect name port) w left i spelled =
    let op = heard spelled in
    let w1 = record w { input = op.between } in
    let request = record s.request { op_code = codes "CONNECT" } in
    subst (λ u. KeptEnd u w.fs (serve s fuel w)) (string_read w1 (heard op.later) request.username)
      (subst (KeptEnd _ w.fs) (sym (serve_op s fuel w op)) (srv_connect-Kept s fuel request w1 i))
serve-KeptEnd s fuel (Call.disconnect name) w left i spelled =
    let op = heard spelled in
    let w1 = record w { input = op.between } in
    let request = record s.request { op_code = codes "DISCONNECT" } in
    subst (λ u. KeptEnd u w.fs (serve s fuel w)) (string_read w1 (heard op.later) request.username)
      (subst (KeptEnd _ w.fs) (sym (serve_op s fuel w op)) (srv_disconnect-Kept s request w1 i))
serve-KeptEnd s fuel (Call.send from to content) w left i spelled =
    let op = heard spelled in
    let w1 = record w { input = op.between } in
    let request = record s.request { op_code = codes "SEND" } in
    subst (λ u. KeptEnd u w.fs (serve s fuel w)) (recipient_read_lem request w1 op.later)
      (subst (KeptEnd _ w.fs) (sym (serve_op s fuel w op)) (srv_send-Kept s request w1 i))

Kept-SameOthers : (u : Bytes) (fs fs' : Fs) → NoSlash u → Kept u fs fs' → SameOthers u fs fs'
Kept-SameOthers u fs fs' plain k v q ne = k.apart (db_dir ∷ table_name v ∷ q) (
    subst (λ p. Apart p (db_dir ∷ table_name v ∷ q)) (sym (components-user_table_path u plain))
      λ _ same.
        absurd
          (ne (sym (table_name-injective u v (eq_of_str_eq (table_name u) (table_name v) same)))))

-- A round ended, with all structs in place and the tables of others as they were.
pub record Isolated (u : Bytes) (w : World) (r : Option World) : Type 0 where
  pub after : World
  pub result : r ≡ some after
  pub in_place : InPlace after.fs
  pub others : SameOthers u w.fs after.fs

-- Whichever calls of the file system and of the sockets fail, and whatever the stack holds: if each
-- struct in the database is at the path that its user, type and message ID name, and the client spells
-- a request whose subject has no slash in its name (the recipient of a SEND, the named user of any
-- other request), then with fuel above the number of listening threads that the round can reach, the
-- round ends, the structs are still each at its path, and nothing in the tables of other users than the
-- subject is changed.
pub serve-Isolated :
    (s : Stack) (fuel : ℕ) (call : Call) (w : World) (left : List ReadEvent)
    → InPlace w.fs
    → Says w.input (words call) left
    → NoSlash (subject call)
    → w.beyond ≡ none
    → length w.peers < fuel
    → Isolated (subject call) w (serve s fuel w)
serve-Isolated s fuel call w left i spelled plain ends enough =
    let e = serve-Ends s fuel w ends enough in
    let k : Kept (subject call) w.fs e.after.fs =
      subst (KeptEnd (subject call) w.fs) e.result (serve-KeptEnd s fuel call w left i spelled) in
    record {
      after = e.after;
      result = e.result;
      in_place = k.in_place;
      others = Kept-SameOthers (subject call) w.fs e.after.fs plain k;
    }

-- A connection spells its request, which is about another user than `u`, and can reach fewer listening
-- threads than there is fuel.
pub record Elsewhere (u : Bytes) (fuel : ℕ) (v : Visit) : Type 0 where
  pub left : List ReadEvent
  pub spelled : Says v.taken.world.input (words v.call) left
  pub plain : NoSlash (subject v.call)
  pub other : u ≢ subject v.call
  pub ends : v.taken.world.beyond ≡ none
  pub few : length v.taken.world.peers < fuel

-- the table of the user, with all that stands in it
abbrev pub SameTable : Bytes → Fs → Fs → Type 0
SameTable u fs fs' =
    (q : FilePath)
    → walk (db_dir ∷ table_name u ∷ q) fs'.root ≡ walk (db_dir ∷ table_name u ∷ q) fs.root

-- However many requests a service thread serves, and whichever calls fail in each of them, the same or
-- others: as long as
-- each is spelled by its client, is about another user than `u`, without a slash in the name, and can
-- reach fewer listening threads than there is fuel, the thread gets through them, and after each of
-- them all that stands in the table of `u` is as it was at the start. Each struct in the database is
-- at its own path at the start.
pub service_thread-SameTable :
    (u : Bytes) (fuel : ℕ) (visits : List Visit) (fs : Fs)
    → InPlace fs
    → All (Elsewhere u fuel) visits
    → (ws : List World) × (service_thread fuel (taken_of visits) fs.root ≡ some ws)
      × All (λ w. SameTable u fs w.fs) ws
unfolding service_thread
service_thread-SameTable u fuel [] fs i h = ([], refl, tt)
service_thread-SameTable u fuel (v ∷ vs) fs i (h, hs) =
    let d =
      serve-Isolated v.taken.stack fuel v.call (over fs.root v.taken.world) h.left
        (record { placed = i.placed }) h.spelled h.plain h.ends h.few in
    let (ws, done, all) = service_thread-SameTable u fuel vs d.after.fs d.in_place hs in
    let from_start : (w : World) → SameTable u d.after.fs w.fs → SameTable u fs w.fs =
      λ w same q. same q ∙ d.others u q h.other in
    (
      d.after ∷ ws,
      rw (d.result, done) refl,
      ((λ q. d.others u q h.other), All-map from_start ws all),
    )
