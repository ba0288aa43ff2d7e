-- ===== src/Dbms/InPlace/Calls/Letters.antt =====
-- The pending messages that `db_get_pend_msg` of src/dbms/dbms.c finds for a user are messages of that
-- user, whichever calls fail.
use ds_lab_assignment.Prelude.{
  ℕ, ◌≡◌, refl, sym, ap, ◌∙◌, [], ◌∷◌, ◌++◌, append_assoc, Option, none, some, ℤ, is_neg, Bytes,
  if_elim, if◌then◌else◌,
}
use ds_lab_assignment.Util.Codes.{pend_msgs_table, gen_err_inv_args, dbms_err_any}
use ds_lab_assignment.Util.Types.{Entry, EntryType, Mode}
use ds_lab_assignment.Util.Decimal.{decimal}
use ds_lab_assignment.Util.StrToNum.{CastType, Cast, str_to_num}
use ds_lab_assignment.Dbms.Fs.{Fs, Entries, end, entry, FilePath, components}
use ds_lab_assignment.Dbms.Paths.{in_user_table, pend_msg_path, entry_path}
use ds_lab_assignment.Dbms.Paths.Laws.{pend_tail}
use ds_lab_assignment.Dbms.Util.{open_directory}
use ds_lab_assignment.Dbms.Ops.{db_io_op_usr_ent, with_id, first_pending, db_get_pend_msg}
use ds_lab_assignment.Dbms.InPlace.{InPlace}
use ds_lab_assignment.Dbms.InPlace.Calls.Directories.{open_directory-Within}
use ds_lab_assignment.Dbms.InPlace.Calls.Reads.{Owned, Owned-own, read-InPlace, read-Owned}
use ds_lab_assignment.Dbms.InPlace.Calls.Users.{home, components-in_home}

without_last : (p q : FilePath) (a b : Bytes) → p ++ a ∷ [] ≡ q ++ b ∷ [] → p ≡ q
without_last [] [] a b h = refl
without_last [] (y ∷ []) a b h = absurd (cc)
without_last [] (y ∷ z ∷ q) a b h = absurd (cc)
without_last (x ∷ []) [] a b h = absurd (cc)
without_last (x ∷ z ∷ p) [] a b h = absurd (cc)
without_last (x ∷ p) (y ∷ q) a b h = cc (without_last p q a b (cc), h)

-- Two pending messages at one path are of one table.
home-pend :
    (u v : Bytes) (m n : ℕ)
    → components (pend_msg_path u m) ≡ components (pend_msg_path v n)
    → home u ≡ home v
unfolding pend_msg_path in_user_table
home-pend u v m n h =
    let split = λ (x : Bytes) (k : ℕ).
      (components-in_home x (pend_msgs_table ++ b'/' ∷ decimal k)
        ∙ ap (λ t. home x ++ t) (pend_tail k))
      ∙ sym (append_assoc (home x) (pend_msgs_table ∷ []) (decimal k ∷ [])) in
    without_last (home u) (home v) pend_msgs_table pend_msgs_table (
      without_last (home u ++ pend_msgs_table ∷ []) (home v ++ pend_msgs_table ∷ []) (decimal m)
        (decimal n) (sym (split u m) ∙ h ∙ split v n))

-- An entry of the user; the directory of the pending messages that it names is the user's.
pub record Mine (u : Bytes) (e : Entry) : Type 0 where
  pub owned : Owned u e
  pub table : e.type ≡ EntryType.p_msg → home e.username ≡ home u

pub Mine-own : (e : Entry) → Mine e.username e
Mine-own e = record { owned = Owned-own e; table = λ _. refl }

pend-path :
    (e : Entry) → e.type ≡ EntryType.p_msg → entry_path e ≡ pend_msg_path e.username e.msg.id
unfolding entry_path
pend-path e h = rw h refl

read-Mine :
    (u : Bytes) (e : Entry) (fs : Fs)
    → InPlace fs
    → e.type ≡ EntryType.p_msg
    → Mine u e
    → Mine u (db_io_op_usr_ent e Mode.read fs).entry
read-Mine u e fs i is_pend m =
    let found = (db_io_op_usr_ent e Mode.read fs).entry in
    record {
      owned = read-Owned u e fs i m.owned;
      table = λ h.
          home-pend found.username e.username found.msg.id e.msg.id (
            (sym (ap components (pend-path found h)) ∙ read-InPlace e fs i)
            ∙ ap components (pend-path e is_pend))
          ∙ m.table is_pend;
    }

with_id-Mine :
    (u : Bytes) (c : Cast) (e : Entry) → e.type ≡ EntryType.p_msg → Mine u e → Mine u (with_id c e)
unfolding with_id
with_id-Mine u c e is_pend m = go c.number
  where
    go :
        (n : Option ℕ)
        → Mine u (elim n as (λ _. Entry) [
          | none ↦ e
          | some id ↦ record e { msg = record e.msg { id = id } }
        ])
    go none = m
    go (some id) =
        let e' = record e { msg = record e.msg { id = id } } in
        let o = Owned-own e' in
        record {
          owned = record { below = o.below; at = o.at ∙ ap (λ t. t ++ o.below) (m.table is_pend) };
          table = m.table;
        }

with_id-type : (c : Cast) (e : Entry) → (with_id c e).type ≡ e.type
unfolding with_id
with_id-type c e = go c.number
  where
    go :
        (n : Option ℕ)
        → (elim n as (λ _. Entry) [
          | none ↦ e
          | some id ↦ record e { msg = record e.msg { id = id } }
        ]).type
          ≡ e.type
    go none = refl
    go (some id) = refl

first_pending-Mine :
    (u : Bytes) (e : Entry) (es : Entries) (fs : Fs)
    → InPlace fs
    → e.type ≡ EntryType.p_msg
    → Mine u e
    → Mine u (first_pending e es fs).1
unfolding first_pending
first_pending-Mine u e end fs i is_pend m = m
first_pending-Mine u e (entry name node rest) fs i is_pend m =
    let c = str_to_num name CastType.uint in
    if_elim (λ (x : ℤ × Entry). Mine u x.1) (is_neg c.result) (λ _. m)
      λ _.
        read-Mine u (with_id c e) fs i (with_id-type c e ∙ is_pend) (with_id-Mine u c e is_pend m)

pub db_get_pend_msg-Mine :
    (u : Bytes) (e : Entry) (fs : Fs) → InPlace fs → Mine u e → Mine u (db_get_pend_msg e fs).1
unfolding db_get_pend_msg
db_get_pend_msg-Mine u e fs i m = go e.type refl
  where
    go :
        (t : EntryType)
        → e.type ≡ t
        → Mine u
            (elim t as (λ _. ℤ × Entry) [
              | EntryType.p_msg ↦
                  let d = open_directory (in_user_table e.username pend_msgs_table) Mode.read fs in
                  if is_neg d.result then (dbms_err_any, e) else first_pending e d.entries d.fs
              | _ ↦ (gen_err_inv_args, e)
            ]).1
    go EntryType.ud h = m
    go EntryType.other h = m
    go EntryType.p_msg h =
        let path = in_user_table e.username pend_msgs_table in
        let d = open_directory path Mode.read fs in
        let i' = (open_directory-Within path Mode.read fs).in_place i in
        if_elim (λ (x : ℤ × Entry). Mine u x.1) (is_neg d.result) (λ _. m)
          λ _. first_pending-Mine u e d.entries d.fs i' h m
