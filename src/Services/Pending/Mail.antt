-- ===== src/Services/Pending/Mail.antt =====
-- The pending messages of a user, as the loop of `aux_connect_send_pend_msgs` in src/services.c finds
-- and sends them.
use ds_lab_assignment.Prelude.{
  false, str_eq, str_eq_iff, str_eq_refl, ◌++◌, refl, ap, insert_at, zero, ℕ, suc, ◌^◌, ◌<◌, ◌≡◌,
  ◌≢◌, ◌∙◌, List, [], ◌∷◌, Option, none, some, All, Bytes, arith,
}
use ds_lab_assignment.Util.Codes.{dbms_err_not_exists, pend_msgs_table, userdata_entry}
use ds_lab_assignment.Util.Types.{Entry, EntryType}
use ds_lab_assignment.Util.Decimal.{decimal}
use ds_lab_assignment.Dbms.Fs.{
  insert_child, Fs, image, file, Entries, end, entry, enoent, ok, err, walk, child,
}
use ds_lab_assignment.Dbms.Directories.{open_there}
use ds_lab_assignment.Dbms.Paths.{in_user_table}
use ds_lab_assignment.Dbms.Paths.Laws.{NoSlash, components-pend_table}
use ds_lab_assignment.Dbms.Remove.Laws.{NoFaults}
use ds_lab_assignment.Dbms.Account.{Account, SameOthers, data_at, pend_at}
use ds_lab_assignment.Dbms.Ops.{db_get_pend_msg}
use ds_lab_assignment.Services.World.{Peer, refuses, accepts, Frame}
use ds_lab_assignment.Services.Client.Laws.{message_frame, ack_frame}

-- A pending message, the entry of its sender, if there is one, and how many strings the listening
-- threads of the recipient and of the sender would take beyond those that they are sent. `none`: the
-- sender's thread refuses the connection.
pub record Mail : Type 0 where
  pub letter : Entry
  pub sender : Option Entry
  pub spare : ℕ
  pub ack_spare : Option ℕ

-- the directory that holds the messages, in their order
abbrev pub stored_in : List Mail → Entries
stored_in [] = end
stored_in (x ∷ xs) = entry (decimal x.letter.msg.id) (file (image x.letter)) (stored_in xs)

-- what an acknowledgement meets: nobody, if its sender has no entry
abbrev pub ack_peers : Option Entry → Option ℕ → List Peer
ack_peers none spare = []
ack_peers (some a) none = refuses ∷ []
ack_peers (some a) (some k) = accepts (suc (suc k)) ∷ []

-- what comes of it
abbrev pub acks : Option Entry → Option ℕ → ℕ → List Frame
acks none spare id = []
acks (some a) none id = []
acks (some a) (some k) id = ack_frame a id ∷ []

-- the listening threads that the loop meets, and those behind them
abbrev pub willing : List Mail → List Peer → List Peer
willing [] peers = peers
willing (x ∷ xs) peers =
    accepts (suc (suc (suc (suc x.spare)))) ∷ (ack_peers x.sender x.ack_spare ++ willing xs peers)

-- What they are sent: each message, and behind it the acknowledgement to its sender, if the sender
-- has an entry and a thread that takes it.
abbrev pub delivered : Entry → List Mail → List Frame
delivered e [] = []
delivered e (x ∷ xs) =
    message_frame e x.letter.msg ∷ (acks x.sender x.ack_spare x.letter.msg.id ++ delivered e xs)

-- The user has this entry in the database, or none.
abbrev pub Held : Fs → Bytes → Option Entry → Type 0
Held fs u none = walk (data_at u) fs.root ≡ err enoent
Held fs u (some e) = walk (data_at u) fs.root ≡ ok (file (image e))

pub Held-same :
    (fs fs' : Fs) (u : Bytes) (o : Option Entry)
    → walk (data_at u) fs'.root ≡ walk (data_at u) fs.root
    → Held fs u o
    → Held fs' u o
Held-same fs fs' u none same h = same ∙ h
Held-same fs fs' u (some e) same h = same ∙ h

-- The messages are those that the server stores for a user: each is a message to the user under an
-- ID of its own, from a sender whose entry is as given.
abbrev pub IsPending : Fs → Bytes → List Mail → Type 0
IsPending fs u [] = Unit
IsPending fs u (x ∷ xs) =
    (x.letter.type ≡ EntryType.p_msg)
    × (x.letter.username ≡ u)
    × (x.letter.msg.id < 2 ^ 32)
    × (child (decimal x.letter.msg.id) (stored_in xs) ≡ none)
    × NoSlash x.letter.msg.sender
    × Held fs x.letter.msg.sender x.sender
    × IsPending fs u xs

-- users' entries that stay as they are keep messages pending
pub IsPending-same :
    (fs fs' : Fs) (u : Bytes) (xs : List Mail)
    → ((v : Bytes) → walk (data_at v) fs'.root ≡ walk (data_at v) fs.root)
    → IsPending fs u xs
    → IsPending fs' u xs
IsPending-same fs fs' u [] same p = tt
IsPending-same fs fs' u (x ∷ xs) same (t, n, i, d, s, w, p) = (
  t,
  n,
  i,
  d,
  s,
  Held-same fs fs' x.letter.msg.sender x.sender (same x.letter.msg.sender) w,
  IsPending-same fs fs' u xs same p,
)

-- What stays of other users' tables keeps messages from other users pending.
pub IsPending-others :
    (fs fs' : Fs) (u : Bytes) (xs : List Mail)
    → SameOthers u fs fs'
    → All (λ x. x.letter.msg.sender ≢ u) xs
    → IsPending fs u xs
    → IsPending fs' u xs
IsPending-others fs fs' u [] same ne p = tt
IsPending-others fs fs' u (x ∷ xs) same (here, there) (t, n, i, d, s, w, p) = (
  t,
  n,
  i,
  d,
  s,
  Held-same fs fs' x.letter.msg.sender x.sender
      (same x.letter.msg.sender (userdata_entry ∷ []) here) w,
  IsPending-others fs fs' u xs same there p,
)

-- a message stored anywhere among the others
pub stored_in-insert_at :
    (n : ℕ) (xs : List Mail) (m : Mail)
    → insert_child n (decimal m.letter.msg.id) (file (image m.letter)) (stored_in xs)
      ≡ stored_in (insert_at n m xs)
unfolding insert_child
stored_in-insert_at zero xs m = refl
stored_in-insert_at (suc n) [] m = refl
stored_in-insert_at (suc n) (x ∷ xs) m =
    ap (entry (decimal x.letter.msg.id) (file (image x.letter))) (stored_in-insert_at n xs m)

child-stored_in :
    (n : ℕ) (name : Bytes) (xs : List Mail) (m : Mail)
    → child name (stored_in xs) ≡ none
    → str_eq (decimal m.letter.msg.id) name ≡ false
    → child name (stored_in (insert_at n m xs)) ≡ none
unfolding child
child-stored_in zero name xs m h ne = ground arith
child-stored_in (suc n) name [] m h ne = ground arith
child-stored_in (suc n) name (x ∷ xs) m h ne = ground (arith, child-stored_in n name xs m)

-- a name that is not in a directory is not that of its first entry
first-other :
    (x : Mail) (xs : List Mail) (name : Bytes)
    → child name (stored_in (x ∷ xs)) ≡ none
    → (str_eq name (decimal x.letter.msg.id) ≡ false) × (child name (stored_in xs) ≡ none)
unfolding child
first-other x xs name h = ground (
  arith,
  str_eq_iff (decimal x.letter.msg.id) name,
  str_eq_iff name (decimal x.letter.msg.id),
  str_eq_refl name,
)

-- the messages that were pending, and one stored among them
pub IsPending-stored :
    (k : ℕ) (fs : Fs) (u : Bytes) (xs : List Mail) (m : Mail)
    → child (decimal m.letter.msg.id) (stored_in xs) ≡ none
    → IsPending fs u xs
    → IsPending fs u (m ∷ [])
    → IsPending fs u (insert_at k m xs)
IsPending-stored zero fs u xs m h p (t, n, i, d, s, w, _) = (t, n, i, h, s, w, p)
IsPending-stored (suc k) fs u [] m h p q = q
IsPending-stored (suc k) fs u (x ∷ xs) m h (t, n, i, d, s, w, p) q =
    let (ne, free) = first-other x xs (decimal m.letter.msg.id) h in
    (
      t,
      n,
      i,
      child-stored_in k (decimal x.letter.msg.id) xs m d ne,
      s,
      w,
      IsPending-stored k fs u xs m free p q,
    )

-- no pending message is found in an empty directory
pub get_none :
    (e : Entry) (fs : Fs)
    → NoFaults fs.faulty
    → NoSlash e.username
    → e.type ≡ EntryType.p_msg
    → (held : Entry) → Account fs e.username held end
    → db_get_pend_msg e fs ≡ (dbms_err_not_exists, e)
unfolding db_get_pend_msg
get_none e fs sound name is_msg held a = ground (
  arith,
  is_msg,
  open_there fs sound (in_user_table e.username pend_msgs_table) (pend_at e.username)
      (components-pend_table e.username name) end a.pending,
)
