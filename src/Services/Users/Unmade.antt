-- ===== src/Services/Users/Unmade.antt =====
-- REGISTER of src/services.c where the user's table cannot be made.
use ds_lab_assignment.Prelude.{◌≡◌, ◌≢◌, true, false, [], ◌∷◌, ◌++◌, Bytes, is_neg, arith}
use ds_lab_assignment.Util.Codes.{dbms_err_any}
use ds_lab_assignment.Util.Types.{Request, Mode}
use ds_lab_assignment.Dbms.Util.{open_directory, no_directory}
use ds_lab_assignment.Dbms.Fs.{Fs, open_dir, make_dir}
use ds_lab_assignment.Dbms.Paths.{user_table_path}
use ds_lab_assignment.Dbms.Paths.Laws.{NoSlash, components-user_table_path}
use ds_lab_assignment.Dbms.Account.{Unknown}
use ds_lab_assignment.Dbms.Ops.{db_creat_usr_tbl}
use ds_lab_assignment.Services.World.{World, Stack, receive}
use ds_lab_assignment.Services.Users.{new_user, srv_register}
use ds_lab_assignment.Services.Users.Laws.{sent_name, after_name}

-- Of the calls on the user's table, `opendir` succeeds, and `mkdir` fails.
pub record MakeFails (fs : Fs) (name : Bytes) : Type 0 where
  pub opens : fs.faulty open_dir (user_table_path name) ≡ false
  pub makes : fs.faulty make_dir (user_table_path name) ≡ true

open_unmade :
    (fs : Fs) (name : Bytes)
    → NoSlash name
    → Unknown fs name
    → MakeFails fs name
    → open_directory (user_table_path name) Mode.create fs ≡ no_directory dbms_err_any fs
unfolding open_directory
open_unmade fs name plain a f =
    ground (arith, components-user_table_path name plain, a.absent, f.opens, f.makes)

module _ (s : Stack) (request : Request) (w : World) (name : Bytes) where
  unmade :
      NoSlash name
      → Unknown w.fs name
      → MakeFails w.fs name
      → db_creat_usr_tbl (new_user s name) w.fs ≡ (dbms_err_any, w.fs)
  unfolding db_creat_usr_tbl
  unmade plain a f = ground (arith, open_unmade w.fs name plain a f)

  -- A name without a slash and without an account was read from a client who can be answered. Of the
  -- calls on the table of that name, `opendir` succeeds and `mkdir` fails. REGISTER answers 0, and changes
  -- nothing in the database: the name has no account.
  pub srv_register_unmade :
      is_neg (receive request.username w).result ≢ true
      → sent_name request w ≡ name
      → NoSlash name
      → Unknown w.fs name
      → MakeFails w.fs name
      → w.writable ≡ true
      → srv_register s request w
        ≡ record (after_name request w) { replies = w.replies ++ (0 ∷ []) ∷ [] }
  unfolding srv_register
  srv_register_unmade read sent plain a f can = ground (arith, unmade plain a f, read, sent, can)
