-- ===== src/Contract/Letters.antt =====
-- A message put among those that wait, or one whose ID is taken, in the directory of a user's pending
-- messages.
use ds_lab_assignment.Prelude.{
  ℕ, zero, suc, insert_at, ◌^◌, ◌<◌, ◌≡◌, refl, sym, ap, ◌∙◌, true, false, List, [], ◌∷◌, none,
  some, Bytes, str_eq, str_eq_iff, str_eq_refl, Bool-cases, Option-cases, inl, inr, arith,
}
use ds_lab_assignment.Util.Codes.{dbms_err_any}
use ds_lab_assignment.Util.Types.{Entry, EntryType, Message, Mode}
use ds_lab_assignment.Util.Decimal.{decimal, scan}
use ds_lab_assignment.Util.Decimal.Laws.{scan-decimal}
use ds_lab_assignment.Dbms.Fs.{
  Fs, Place, insert_child, names, FilePath, blank, image, Node, file, dir, Entries, entry, eexist,
  ok, err, child, walk, change, create, open_entry,
}
use ds_lab_assignment.Dbms.Fs.Laws.{walk-append}
use ds_lab_assignment.Dbms.Paths.{entry_path, pend_msg_path}
use ds_lab_assignment.Dbms.Paths.Laws.{NoSlash, components-pend_msg_path}
use ds_lab_assignment.Dbms.Remove.Laws.{NoFaults}
use ds_lab_assignment.Dbms.Util.{changed, open_file}
use ds_lab_assignment.Dbms.Account.{Account, pend_at, msg_at}
use ds_lab_assignment.Dbms.Ops.{db_io_op_usr_ent}
use ds_lab_assignment.Contract.{has_id, ids}
use ds_lab_assignment.Contract.Holds.{files, Letters}

decimal-injective : (a b : ℕ) → str_eq (decimal a) (decimal b) ≡ true → a ≡ b
decimal-injective a b e =
    sym (scan-decimal a) ∙ (ap (scan 0) ((str_eq_iff (decimal a) (decimal b)).0 e) ∙ scan-decimal b)

-- no file has the name of an ID that is free
pub files_free :
    (name : Bytes) (id : ℕ) (es : List Entry) (ms : List Message)
    → Letters name es ms
    → has_id id ms ≡ false
    → child (decimal id) (files es) ≡ none
unfolding child
files_free name id [] [] l h = refl
files_free name id [] (m ∷ ms) l h = absurd l
files_free name id (e ∷ es) [] l h = absurd l
files_free name id (e ∷ es) (m ∷ ms) (t, n, same, i, d, from, l) h =
    ground (arith, same, decimal-injective e.msg.id id, files_free name id es ms l)

-- an ID that is taken is the name of a message's file
pub files_taken :
    (name : Bytes) (id : ℕ) (es : List Entry) (ms : List Message)
    → Letters name es ms
    → has_id id ms ≡ true
    → (e : Entry) × (child (decimal id) (files es) ≡ some (file (image e)))
unfolding child
files_taken name id [] [] l h = absurd (cc)
files_taken name id [] (m ∷ ms) l h = absurd l
files_taken name id (e ∷ es) [] l h = absurd l
files_taken name id (e ∷ es) (m ∷ ms) (t, n, same, i, d, from, l) h =
    elim (Bool-cases (str_eq (decimal e.msg.id) (decimal id))) [
      | inl here ↦ (e, rw here refl)
      | inr differ ↦
          let other : has_id id ms ≡ true = ground (arith, same, str_eq_refl (decimal id)) in
          let (f, there) = files_taken name id es ms l other in (f, rw differ there)
    ]

-- the files have the names of the messages
pub names-files :
    (name : Bytes) (es : List Entry) (ms : List Message)
    → Letters name es ms
    → names (files es) ≡ ids ms
unfolding names
names-files name [] [] l = refl
names-files name [] (m ∷ ms) l = absurd l
names-files name (e ∷ es) [] l = absurd l
names-files name (e ∷ es) (m ∷ ms) (t, n, same, i, d, from, l) =
    let rest = names-files name es ms l in rw (same, rest) refl

-- the messages with one more
pub files-insert_at :
    (n : ℕ) (es : List Entry) (e : Entry)
    → insert_child n (decimal e.msg.id) (file (image e)) (files es) ≡ files (insert_at n e es)
unfolding insert_child
files-insert_at zero es e = refl
files-insert_at (suc n) [] e = refl
files-insert_at (suc n) (f ∷ es) e =
    ap (entry (decimal f.msg.id) (file (image f))) (files-insert_at n es e)

child-files :
    (n : ℕ) (name : Bytes) (es : List Entry) (e : Entry)
    → child name (files es) ≡ none
    → str_eq (decimal e.msg.id) name ≡ false
    → child name (files (insert_at n e es)) ≡ none
unfolding child
child-files zero name es e h ne = ground arith
child-files (suc n) name [] e h ne = ground arith
child-files (suc n) name (f ∷ es) e h ne = ground (arith, child-files n name es e)

pub Letters-insert_at :
    (k : ℕ) (name : Bytes) (es : List Entry) (ms : List Message) (e : Entry)
    → Letters name es ms
    → child (decimal e.msg.id) (files es) ≡ none
    → e.type ≡ EntryType.p_msg
    → e.username ≡ name
    → e.msg.id < 2 ^ 32
    → NoSlash e.msg.sender
    → Letters name (insert_at k e es) (insert_at k e.msg ms)
unfolding child
Letters-insert_at zero name es ms e l h t n i from = (t, n, refl, i, h, from, l)
Letters-insert_at (suc k) name [] [] e l h t n i from = (t, n, refl, i, refl, from, tt)
Letters-insert_at (suc k) name [] (m ∷ ms) e l h t n i from = absurd l
Letters-insert_at (suc k) name (f ∷ es) [] e l h t n i from = absurd l
Letters-insert_at (suc k) name (f ∷ es) (m ∷ ms) e (t', n', same, i', d, from', l) h t n i from =
    let differ : str_eq (decimal e.msg.id) (decimal f.msg.id) ≡ false = ground (
      arith,
      str_eq_iff (decimal e.msg.id) (decimal f.msg.id),
      str_eq_iff (decimal f.msg.id) (decimal e.msg.id),
      str_eq_refl (decimal e.msg.id),
    ) in
    let free : child (decimal e.msg.id) (files es) ≡ none = ground arith in
    (
      t',
      n',
      same,
      i',
      child-files k (decimal f.msg.id) es e d differ,
      from',
      Letters-insert_at k name es ms e l free t n i from,
    )

-- nothing is created where something stands
change-create :
    (place : Place) (node : Node) (p : FilePath) (t n : Node)
    → walk p t ≡ ok n
    → change (create place node) p t ≡ err eexist
unfolding walk change create
change-create place node [] t n h = refl
change-create place node (a ∷ p) (file d) n h = cc
change-create place node (a ∷ []) (dir es) n h = ground arith
change-create place node (a ∷ b ∷ p) (dir es) n h = elim (Option-cases (child a es)) [
  | inl gone ↦ absurd (ground arith)
  | inr (m, here) ↦ ground (arith, here, change-create place node (b ∷ p) m n)
]

-- CREATE of a pending message under an ID that is taken fails and changes nothing.
pub create_taken :
    (fs : Fs) (m e held : Entry) (pend : Entries)
    → NoFaults fs.faulty
    → NoSlash m.username
    → m.type ≡ EntryType.p_msg
    → Account fs m.username e pend
    → child (decimal m.msg.id) pend ≡ some (file (image held))
    → db_io_op_usr_ent m Mode.create fs ≡ record { result = dbms_err_any; entry = m; fs = fs }
unfolding db_io_op_usr_ent entry_path open_file changed
create_taken fs m e held pend sound name is_msg a there =
    let at = components-pend_msg_path m.username m.msg.id name in
    let stands : walk (msg_at m.username m.msg.id) fs.root ≡ ok (file (image held)) =
      walk-append (pend_at m.username) (decimal m.msg.id ∷ []) fs.root (dir pend) a.pending
      ∙ (unfold walk in ground (arith, there)) in
    let refused =
      change-create fs.place (file blank) (msg_at m.username m.msg.id) fs.root (file (image held))
        stands in
    ground (
      arith,
      is_msg,
      at,
      refused,
      sound (open_entry Mode.create) (pend_msg_path m.username m.msg.id),
    )
