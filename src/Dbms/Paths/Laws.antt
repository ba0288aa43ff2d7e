-- ===== src/Dbms/Paths/Laws.antt =====
-- The paths of src/dbms/dbms.c: whether they fit their arrays, and where they lead.
use mathlib.Core.List.{append_cancel_right}
use ds_lab_assignment.Prelude.{
  ℕ, ◌+◌, ◌≤◌, ◌<◌, ◌^◌, ◌≡◌, ◌≢◌, refl, ◌==◌, true, false, length, length-append, [], ◌∷◌, ◌++◌,
  append_assoc, append-nil, ◌∙◌, All, Bytes, codes, arith,
}
use ds_lab_assignment.Util.Codes.{db_dir, userdata_entry, pend_msgs_table}
use ds_lab_assignment.Util.Types.{Entry, EntryType}
use ds_lab_assignment.Util.Decimal.{decimal, is_digit}
use ds_lab_assignment.Util.Decimal.Laws.{length-decimal, Digits, decimal-Digits, starts-decimal}
use ds_lab_assignment.Dbms.Fs.{FilePath, close_piece, split_from, components}
use ds_lab_assignment.Dbms.Paths.{
  table_name, user_table_path, in_user_table, pend_msg_path, entry_path, user_exists_buffer,
  user_table_buffer, in_table_buffer, pend_table_buffer, entry_buffer,
}

length-user_table_path :
    (username : Bytes) → length (user_table_path username) ≡ length username + 12
unfolding user_table_path
length-user_table_path username = omega (arith, length-append username (codes "-table"))

length-in_user_table :
    (username name : Bytes)
    → length (in_user_table username name) ≡ length username + length name + 13
unfolding in_user_table
length-in_user_table username name = omega (
  arith,
  length-append username (codes "-table"),
  length-append (table_name username) (b'/' ∷ name),
)

length-pend_msg_path :
    (username : Bytes) (id : ℕ)
    → id < 2 ^ 32
    → length (pend_msg_path username id) ≤ length username + 39
unfolding pend_msg_path
length-pend_msg_path username id h = omega (
  arith,
  length-append username (codes "-table"),
  length-append (table_name username) (b'/' ∷ (pend_msgs_table ++ b'/' ∷ decimal id)),
  length-decimal id 9 (omega arith),
)

entry_path_fits :
    (e : Entry) (t : EntryType)
    → e.type ≡ t
    → e.msg.id < 2 ^ 32
    → length (entry_path e) + 1 ≤ entry_buffer e
unfolding entry_path entry_buffer
entry_path_fits e EntryType.ud same h =
    ground (arith, length-in_user_table e.username userdata_entry)
entry_path_fits e EntryType.p_msg same h = ground (arith, length-pend_msg_path e.username e.msg.id)
entry_path_fits e EntryType.other same h = ground (arith, length-pend_msg_path e.username e.msg.id)

-- The array of `db_user_exists` is one byte short for every username: the path and its terminating
-- zero take one byte more than `path_len`.
pub user_exists_overflows :
    (username : Bytes) → length (user_table_path username) + 1 ≡ user_exists_buffer username + 1
unfolding user_exists_buffer
user_exists_overflows username = omega (arith, length-user_table_path username)

-- The other arrays hold their paths with the terminating zero, for every username: those of
-- `db_creat_usr_tbl` and `db_del_usr_tbl`, that of `db_get_pend_msg`, and that of
-- `db_io_op_usr_ent` for either type of entry, if the message ID is an unsigned int.
pub paths_fit :
    (username : Bytes) (e : Entry)
    → e.msg.id < 2 ^ 32
    → (length (user_table_path username) + 1 ≤ user_table_buffer username)
      × (length (in_user_table username userdata_entry) + 1
          ≤ in_table_buffer username userdata_entry)
      × (length (in_user_table username pend_msgs_table) + 1
          ≤ in_table_buffer username pend_msgs_table)
      × (length (in_user_table username pend_msgs_table) + 1 ≤ pend_table_buffer username)
      × (length (entry_path e) + 1 ≤ entry_buffer e)
unfolding user_table_buffer in_table_buffer pend_table_buffer
paths_fit username e h = (
  omega (arith, length-user_table_path username),
  omega (arith, length-user_table_path username, length-in_user_table username userdata_entry),
  omega (arith, length-user_table_path username, length-in_user_table username pend_msgs_table),
  omega (arith, length-in_user_table username pend_msgs_table),
  entry_path_fits e e.type refl h,
)

-- a name with no slash: one piece of a path
abbrev pub NoSlash : Bytes → Type 0
NoSlash = All (λ c. (c == b'/') ≡ false)

NoSlash-append : (s t : Bytes) → NoSlash s → NoSlash t → NoSlash (s ++ t)
NoSlash-append [] t hs ht = ht
NoSlash-append (c ∷ s) t hs ht = (hs.0, NoSlash-append s t hs.1 ht)

NoSlash-Digits : (s : Bytes) → Digits s → NoSlash s
NoSlash-Digits [] d = tt
NoSlash-Digits (c ∷ s) d =
    let digit : is_digit c ≡ true = d.0 in (ground arith, NoSlash-Digits s d.1)

split_from-slash :
    (name rest piece : Bytes)
    → NoSlash name
    → split_from piece (name ++ b'/' ∷ rest) ≡ close_piece (piece ++ name) (split_from [] rest)
unfolding split_from
split_from-slash [] rest piece h = rw append-nil
split_from-slash (c ∷ name) rest piece h =
    ground
      (arith, append_assoc piece (c ∷ []) name, split_from-slash name rest (piece ++ c ∷ []) h.1)

split_from-end :
    (name piece : Bytes) → NoSlash name → split_from piece name ≡ close_piece (piece ++ name) []
unfolding split_from
split_from-end [] piece h = rw append-nil
split_from-end (c ∷ name) piece h =
    ground (arith, append_assoc piece (c ∷ []) name, split_from-end name (piece ++ c ∷ []) h.1)

close_piece-table_name :
    (username : Bytes) (p : FilePath)
    → close_piece (table_name username) p ≡ table_name username ∷ p
close_piece-table_name [] p = refl
close_piece-table_name (c ∷ username) p = refl

table_name-NoSlash : (username : Bytes) → NoSlash username → NoSlash (table_name username)
table_name-NoSlash username h =
    NoSlash-append username (codes "-table") h (refl, (refl, (refl, (refl, (refl, (refl, tt))))))

-- Where the paths lead, for a username with no slash in it.
module _ (username : Bytes) (h : NoSlash username) where
  pub components-user_table_path :
      components (user_table_path username) ≡ db_dir ∷ table_name username ∷ []
  unfolding components user_table_path
  components-user_table_path = rw (
    split_from-end (table_name username) [] (table_name-NoSlash username h),
    close_piece-table_name,
  )

  components-in_user_table_from :
      (name : Bytes)
      → components (in_user_table username name) ≡ db_dir ∷ table_name username ∷ split_from [] name
  unfolding components in_user_table
  components-in_user_table_from name = rw (
    split_from-slash (table_name username) name [] (table_name-NoSlash username h),
    close_piece-table_name,
  )

  pub components-userdata :
      components (in_user_table username userdata_entry)
      ≡ db_dir ∷ table_name username ∷ userdata_entry ∷ []
  components-userdata = components-in_user_table_from userdata_entry ∙ (unfold split_from in refl)

  pub components-pend_table :
      components (in_user_table username pend_msgs_table)
      ≡ db_dir ∷ table_name username ∷ pend_msgs_table ∷ []
  components-pend_table =
      components-in_user_table_from pend_msgs_table ∙ (unfold split_from in refl)

close_piece-ne_nil : (s : Bytes) (p : FilePath) → s ≢ [] → close_piece s p ≡ s ∷ p
close_piece-ne_nil [] p h = absurd (h refl)
close_piece-ne_nil (c ∷ s) p h = refl

decimal-ne-nil : (n : ℕ) → decimal n ≢ []
decimal-ne-nil n e = cc (starts-decimal n, e)

pub components-pend_msg_path :
    (username : Bytes) (id : ℕ)
    → NoSlash username
    → components (pend_msg_path username id)
      ≡ db_dir ∷ table_name username ∷ pend_msgs_table ∷ decimal id ∷ []
unfolding components pend_msg_path
components-pend_msg_path username id h = rw (
  split_from-slash (table_name username) (pend_msgs_table ++ b'/' ∷ decimal id) []
      (table_name-NoSlash username h),
  close_piece-table_name,
  split_from-end (decimal id) [] (NoSlash-Digits (decimal id) (decimal-Digits id)),
  close_piece-ne_nil (decimal id) [] (decimal-ne-nil id),
)

-- what `pend_msg_path` adds to the path of the table, for any name
pub pend_tail :
    (id : ℕ)
    → split_from [] (pend_msgs_table ++ b'/' ∷ decimal id) ≡ pend_msgs_table ∷ decimal id ∷ []
unfolding split_from
pend_tail id =
    rw
      (
        split_from-end (decimal id) [] (NoSlash-Digits (decimal id) (decimal-Digits id)),
        close_piece-ne_nil (decimal id) [] (decimal-ne-nil id),
      )
      refl

-- Different users have different tables.
pub table_name-injective : (u v : Bytes) → table_name u ≡ table_name v → u ≡ v
table_name-injective u v e = append_cancel_right u v (codes "-table") e
