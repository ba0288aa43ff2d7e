-- ===== src/Contract/Holds.antt =====
-- How the database of src/dbms holds what the contract speaks of: a user's struct in userdata.entry,
-- and the waiting messages as files in the order of the directory.
use ds_lab_assignment.Prelude.{
  ℕ, ◌^◌, ◌<◌, ◌≡◌, ◌≢◌, ◌∙◌, if◌then◌else◌, Bool, true, false, List, [], ◌∷◌, Option, none, some,
  Bytes, str_eq, str_eq_refl, str-cases, inl, inr,
}
use ds_lab_assignment.Util.Codes.{db_dir, userdata_entry, pend_msgs_table, msg_id_max_value}
use ds_lab_assignment.Util.Types.{Entry, EntryType, Message}
use ds_lab_assignment.Util.Decimal.{decimal}
use ds_lab_assignment.Dbms.Fs.{Fs, image, file, dir, Entries, end, entry, ok, walk, child}
use ds_lab_assignment.Dbms.Paths.Laws.{NoSlash}
use ds_lab_assignment.Dbms.Remove.Laws.{NoFaults}
use ds_lab_assignment.Dbms.Account.{Account, Unknown, SameOthers}
use ds_lab_assignment.Contract.{User, Office, with_user}

-- the directory that holds the messages, in their order
abbrev pub files : List Entry → Entries
files [] = end
files (e ∷ es) = entry (decimal e.msg.id) (file (image e)) (files es)

-- The files of a user hold these messages, each under an ID of its own.
abbrev pub Letters : Bytes → List Entry → List Message → Type 0
Letters name [] [] = Unit
Letters name [] (m ∷ ms) = ⊥
Letters name (e ∷ es) [] = ⊥
Letters name (e ∷ es) (m ∷ ms) =
    (e.type ≡ EntryType.p_msg)
    × (e.username ≡ name)
    × (e.msg ≡ m)
    × (e.msg.id < 2 ^ 32)
    × (child (decimal e.msg.id) (files es) ≡ none)
    × NoSlash e.msg.sender
    × Letters name es ms

-- `status` of a user
abbrev pub status_of : Bool → ℕ
status_of connected = if connected then 1 else 0

-- The struct says of the user what the contract says.
pub record Describes (e : Entry) (name : Bytes) (user : User) : Type 0 where
  pub named : e.username ≡ name
  pub is_ud : e.type ≡ EntryType.ud
  pub last : e.user.last_msg_id ≡ user.last_msg_id
  pub bound : user.last_msg_id < msg_id_max_value
  pub status : e.user.status ≡ status_of user.connected
  pub ip : e.user.ip ≡ user.address.ip
  pub port : e.user.port ≡ user.address.port

pub record Keeps (fs : Fs) (name : Bytes) (user : User) : Type 0 where
  pub struct : Entry
  pub letters : List Entry
  pub account : Account fs name struct (files letters)
  pub describes : Describes struct name user
  pub written : Letters name letters user.pending

abbrev pub HoldsAt : Fs → Bytes → Option User → Type 0
HoldsAt fs name none = Unknown fs name
HoldsAt fs name (some user) = Keeps fs name user

-- The database holds the users of the contract and no others, and its calls do not fail.
pub record Holds (fs : Fs) (office : Office) : Type 0 where
  pub sound : NoFaults fs.faulty
  pub at : (name : Bytes) → NoSlash name → HoldsAt fs name (office name)

pub tables_of :
    (fs : Fs) (name : Bytes) (user : Option User)
    → HoldsAt fs name user
    → (tables : Entries) × (walk (db_dir ∷ []) fs.root ≡ ok (dir tables))
tables_of fs name none u = (u.tables, u.db)
tables_of fs name (some user) k = (k.account.tables, k.account.db)

HoldsAt-elsewhere :
    (fs fs' : Fs) (name other : Bytes) (tables : Entries) (user : Option User)
    → walk (db_dir ∷ []) fs'.root ≡ ok (dir tables)
    → SameOthers name fs fs'
    → other ≢ name
    → HoldsAt fs other user
    → HoldsAt fs' other user
HoldsAt-elsewhere fs fs' name other tables none db same ne u = record {
  tables = tables;
  db = db;
  absent = same other [] ne ∙ u.absent;
}
HoldsAt-elsewhere fs fs' name other tables (some user) db same ne k = record {
  struct = k.struct;
  letters = k.letters;
  account = record {
    tables = tables;
    db = db;
    table_entries = k.account.table_entries;
    table = same other [] ne ∙ k.account.table;
    stored = same other (userdata_entry ∷ []) ne ∙ k.account.stored;
    pending = same other (pend_msgs_table ∷ []) ne ∙ k.account.pending;
  };
  describes = k.describes;
  written = k.written;
}

HoldsAt-root :
    (fs fs' : Fs) (name : Bytes) (user : Option User)
    → fs'.root ≡ fs.root
    → HoldsAt fs name user
    → HoldsAt fs' name user
HoldsAt-root fs fs' name none same u = record {
  tables = u.tables;
  db = rw same u.db;
  absent = rw same u.absent;
}
HoldsAt-root fs fs' name (some user) same k = record {
  struct = k.struct;
  letters = k.letters;
  account = record {
    tables = k.account.tables;
    db = rw same k.account.db;
    table_entries = k.account.table_entries;
    table = rw same k.account.table;
    stored = rw same k.account.stored;
    pending = rw same k.account.pending;
  };
  describes = k.describes;
  written = k.written;
}

-- Only the tree matters, and that calls do not fail.
pub Holds-root :
    {fs fs' : Fs} {office : Office}
    → fs'.root ≡ fs.root
    → NoFaults fs'.faulty
    → Holds fs office
    → Holds fs' office
Holds-root {fs} {fs'} {office} same sound h = record {
  sound = sound;
  at = λ name slash. HoldsAt-root fs fs' name (office name) same (h.at name slash);
}

-- An operation on one user's table changes what the database holds of that user.
pub Holds-with_user :
    {fs fs' : Fs} {office : Office} (name : Bytes) (user : Option User)
    → Holds fs office
    → SameOthers name fs fs'
    → NoFaults fs'.faulty
    → HoldsAt fs' name user
    → Holds fs' (with_user name user office)
Holds-with_user {fs} {fs'} {office} name user h same sound here =
    let (tables, db) = tables_of fs' name user here in
    record {
      sound = sound;
      at = λ v slash. elim (str-cases v name) [
        | inl e ↦ rw (e, str_eq_refl name) here
        | inr ne ↦ rw ne (
            HoldsAt-elsewhere fs fs' name v tables (office v) db same (λ e. str_eq_ne v name ne e)
              (h.at v slash))
      ];
    }
  where
    str_eq_ne : (s t : Bytes) → str_eq s t ≡ false → s ≢ t
    str_eq_ne s t ne e = let same : str_eq s t ≡ true = rw e (str_eq_refl t) in cc
