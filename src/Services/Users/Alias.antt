-- ===== src/Services/Users/Alias.antt =====
-- Usernames that differ and name one table: nothing in src/services.c or src/dbms/dbms.c looks for a slash in a
-- username.
use ds_lab_assignment.Prelude.{◌≡◌, ◌≢◌, refl, ◌∙◌, true, [], ◌∷◌, ◌++◌, Bytes, is_neg, arith}
use ds_lab_assignment.Util.Codes.{c_true, gen_success}
use ds_lab_assignment.Util.Types.{Entry, Request}
use ds_lab_assignment.Dbms.Fs.{Fs, Entries, components}
use ds_lab_assignment.Dbms.Paths.{user_table_path}
use ds_lab_assignment.Dbms.Paths.Laws.{NoSlash, components-user_table_path}
use ds_lab_assignment.Dbms.Remove.Laws.{NoFaults}
use ds_lab_assignment.Dbms.Directories.{open_there}
use ds_lab_assignment.Dbms.Account.{table_at, Account, Unknown}
use ds_lab_assignment.Dbms.Tables.{remove_table}
use ds_lab_assignment.Dbms.Ops.{db_user_exists, db_del_usr_tbl}
use ds_lab_assignment.Services.World.{World, receive}
use ds_lab_assignment.Services.Users.{srv_unregister}
use ds_lab_assignment.Services.Users.Laws.{sent_name, after_name}

-- the name with a slash in front
abbrev pub alias : Bytes → Bytes
alias name = b'/' ∷ name

alias-home :
    (name : Bytes) → components (user_table_path (alias name)) ≡ components (user_table_path name)
unfolding components user_table_path
alias-home name = refl

alias_exists :
    (fs : Fs) (u : Bytes) (e : Entry) (mine : Entries)
    → components (user_table_path (alias u)) ≡ table_at u
    → NoFaults fs.faulty
    → Account fs u e mine
    → db_user_exists (alias u) fs ≡ c_true
unfolding db_user_exists
alias_exists fs u e mine at sound a =
    ground (
      arith,
      open_there fs sound (user_table_path (alias u)) (table_at u) at a.table_entries a.table,
    )

-- No call of the file system fails, and the client can be answered. UNREGISTER of a name that is a slash
-- and behind it the name of a user with an account, which has no slash, answers 0 and leaves nothing of that
-- user's account.
pub srv_unregister-alias :
    (request : Request) (w : World) (u : Bytes) (e : Entry) (mine : Entries)
    → is_neg (receive request.username w).result ≢ true
    → sent_name request w ≡ alias u
    → NoFaults w.fs.faulty
    → NoSlash u
    → Account w.fs u e mine
    → w.writable ≡ true
    → (fs' : Fs) × (srv_unregister request w
        ≡ record (after_name request w) { fs = fs'; replies = w.replies ++ (0 ∷ []) ∷ [] })
      × Unknown fs' u
unfolding srv_unregister
srv_unregister-alias request w u e mine read sent sound plain a can =
    let path = user_table_path (alias u) in
    let at : components path ≡ table_at u = alias-home u ∙ components-user_table_path u plain in
    let (fs', gone, unknown, _, _) = remove_table path w.fs u e mine at sound a in
    let there = alias_exists w.fs u e mine at sound a in
    let deleted : db_del_usr_tbl (alias u) w.fs ≡ (gen_success, fs') =
      unfold db_del_usr_tbl in gone in
    (fs', ground (arith, there, deleted, read, can, sent), unknown)
