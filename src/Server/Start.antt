-- ===== src/Server/Start.antt =====
-- `main` of app/server.c up to its loop: the arguments, the database, the socket, the threads. What the
-- calls of the system give are parameters. The prints, the attributes of threads and the handler of
-- SIGINT are left out.
pub mod Laws
use ds_lab_assignment.Prelude.{
  ℕ, zero, suc, pos, int_eq, ◌%◌, ◌^◌, if◌then◌else◌, Bool, true, false, not, List, [], ◌∷◌, Option,
  none, some, ℤ, Bytes, codes, str_eq, is_neg,
}
use ds_lab_assignment.Util.Codes.{gen_err_any, gen_err_inv_args}
use ds_lab_assignment.Util.Check.{
  check_args, check_func_error, check_func_error_with_errno, check_sock_error,
  check_error_with_errno,
}
use ds_lab_assignment.Util.StrToNum.{CastType, Cast, str_to_num}
use ds_lab_assignment.Dbms.Fs.{Fs}
use ds_lab_assignment.Dbms.Ops.{db_init_db}
use ds_lab_assignment.Server.Threads.{thread_pool_size}

-- What `socket`, `setsockopt`, `bind` to a port, `listen`, each call of `pthread_create` and
-- `gethostname` return, and the host's address, where `gethostbyname` finds the host.
pub record Os : Type 0 where
  pub socket : ℤ
  pub setsockopt : ℤ
  pub bind : ℕ → ℤ
  pub listen : ℤ
  pub pthread_create : ℕ → ℤ
  pub gethostname : ℤ
  pub gethostbyname : Option ℕ

-- What `main` has done: the code that it returned, or `none` where it accepts connections; whether it
-- has closed its socket; the port it listens on; and the number of threads it has created.
pub record Server : Type 0 where
  pub exit : Option ℤ
  pub fs : Fs
  pub closed : Bool
  pub port : Option ℕ
  pub threads : ℕ

-- a return before a port is bound
abbrev pub returned : ℤ → Bool → Fs → Server
returned code closed fs = record {
  exit = some code;
  fs = fs;
  closed = closed;
  port = none;
  threads = 0;
}

-- The threads that the first so many calls of `pthread_create` make. A call returns 0 where it makes one,
-- and `main` does not look at the result.
abbrev pub threads_made : (ℕ → ℤ) → ℕ → ℕ
threads_made pthread_create zero = zero
threads_made pthread_create (suc i) =
    let made = threads_made pthread_create i in
    if int_eq (pthread_create i) (pos 0) then suc made else made

-- the server behind `listen` and the creation of the threads
abbrev pub listening : Option ℤ → ℕ → Os → Fs → Server
listening exit port os fs = record {
  exit = exit;
  fs = fs;
  closed = false;
  port = some port;
  threads = threads_made os.pthread_create thread_pool_size;
}

abbrev pub is_null : Option ℕ → Bool
is_null none = true
is_null (some _) = false

-- lines 152-164, behind `listen`
unfoldable pub announce : Os → ℕ → Fs → Server
announce os port fs =
    let ended = listening (some gen_err_any) port os fs in
    check_func_error_with_errno os.gethostname ended
      (check_error_with_errno (is_null os.gethostbyname) ended (listening none port os fs))

-- The socket. A socket that `listen` refuses is bound, and closed again.
unfoldable pub open_server : Os → ℕ → Fs → Server
unfolding announce
open_server os port fs =
    let closed = returned gen_err_any true fs in
    check_func_error_with_errno os.socket (returned gen_err_any false fs) (
      check_sock_error os.setsockopt closed (
        check_sock_error (os.bind port) closed
          (check_sock_error os.listen closed (announce os port fs))))

-- `server_port`: `str_to_num` writes it wherever it returns no error.
abbrev pub server_port : Cast → ℕ
server_port c = elim c.number [ none ↦ zero | some word ↦ word ]

-- `htons` takes the lower 16 bits.
unfoldable pub set_up : Os → Cast → Fs → Server
unfolding open_server
set_up os c fs =
    let db = db_init_db fs in
    check_args (is_neg c.result) (returned gen_err_inv_args false fs) (
      check_func_error db.0 (returned gen_err_any false db.1)
        (open_server os (server_port c % 2 ^ 16) db.1))

-- `main`
unfoldable pub main : Os → List Bytes → Fs → Server
unfolding set_up
main os (program ∷ option ∷ port ∷ []) fs =
    if not (str_eq option (codes "-p"))
    then returned gen_err_inv_args false fs
    else set_up os (str_to_num port CastType.int) fs
main os _ fs = returned gen_err_inv_args false fs
