-- ===== src/Dbms/Account.antt =====
-- What the database holds of a user, as src/dbms lays it out: users/NAME-table with userdata.entry
-- and the directory pend_msgs-table, in which each message is a file named by its ID.
use ds_lab_assignment.Prelude.{ℕ, ◌≡◌, ◌≢◌, sym, ◌∙◌, [], ◌∷◌, Option, Bytes, eq_of_str_eq}
use ds_lab_assignment.Util.Codes.{db_dir, userdata_entry, pend_msgs_table}
use ds_lab_assignment.Util.Types.{Entry}
use ds_lab_assignment.Util.Decimal.{decimal}
use ds_lab_assignment.Dbms.Fs.{Fs, FilePath, image, Node, file, dir, Entries, enoent, ok, err, walk}
use ds_lab_assignment.Dbms.Paths.{table_name}
use ds_lab_assignment.Dbms.Paths.Laws.{table_name-injective}
use ds_lab_assignment.Dbms.Edited.{Edited}

abbrev pub table_at : Bytes → FilePath
table_at u = db_dir ∷ table_name u ∷ []

abbrev pub data_at : Bytes → FilePath
data_at u = db_dir ∷ table_name u ∷ userdata_entry ∷ []

abbrev pub pend_at : Bytes → FilePath
pend_at u = db_dir ∷ table_name u ∷ pend_msgs_table ∷ []

abbrev pub msg_at : Bytes → ℕ → FilePath
msg_at u id = db_dir ∷ table_name u ∷ pend_msgs_table ∷ decimal id ∷ []

-- The user has a table, with this entry in it and this directory of pending messages.
pub record Account (fs : Fs) (u : Bytes) (e : Entry) (pend : Entries) : Type 0 where
  pub tables : Entries
  pub db : walk (db_dir ∷ []) fs.root ≡ ok (dir tables)
  pub table_entries : Entries
  pub table : walk (table_at u) fs.root ≡ ok (dir table_entries)
  pub stored : walk (data_at u) fs.root ≡ ok (file (image e))
  pub pending : walk (pend_at u) fs.root ≡ ok (dir pend)

-- The directory of the database is there, and the user has no table in it.
pub record Unknown (fs : Fs) (u : Bytes) : Type 0 where
  pub tables : Entries
  pub db : walk (db_dir ∷ []) fs.root ≡ ok (dir tables)
  pub absent : walk (table_at u) fs.root ≡ err enoent

-- All that stands in the tables of other users is as it was.
abbrev pub SameOthers : Bytes → Fs → Fs → Type 0
SameOthers u fs fs' =
    (v : Bytes) (q : FilePath)
    → v ≢ u
    → walk (db_dir ∷ table_name v ∷ q) fs'.root ≡ walk (db_dir ∷ table_name v ∷ q) fs.root

pub Edited-SameOthers :
    {fs fs' : Fs} {o : Option Node} (u : Bytes) (p : FilePath)
    → Edited fs fs' (db_dir ∷ table_name u ∷ p) o
    → SameOthers u fs fs'
Edited-SameOthers u p e v q ne = e.apart (db_dir ∷ table_name v ∷ q) λ _ same.
    absurd (ne (sym (table_name-injective u v (eq_of_str_eq (table_name u) (table_name v) same))))

-- an account beside one that an operation left
pub Account-elsewhere :
    {fs fs' : Fs} {u v : Bytes} {e a : Entry} {pend mine : Entries}
    → SameOthers u fs fs'
    → v ≢ u
    → Account fs' u e pend
    → Account fs v a mine
    → Account fs' v a mine
Account-elsewhere {v = v} same ne there here = record {
  tables = there.tables;
  db = there.db;
  table_entries = here.table_entries;
  table = same v [] ne ∙ here.table;
  stored = same v (userdata_entry ∷ []) ne ∙ here.stored;
  pending = same v (pend_msgs_table ∷ []) ne ∙ here.pending;
}
