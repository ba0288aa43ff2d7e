-- ===== src/Server/Shutdown.antt =====
-- What `main` of app/server.c sets up before it opens the database, `shutdown_server`, which ends the process
-- on SIGINT, and `set_server_error_code_std`.
use ds_lab_assignment.Prelude.{
  ℕ, ◌≡◌, refl, Bool, true, false, ℤ, pos, negsuc, int_eq, if◌then◌else◌,
}
use ds_lab_assignment.Util.Codes.{srv_success, srv_err_cn_any}

-- `reply_t`
pub record Reply : Type 0 where
  pub server_error_code : ℕ

-- `set_server_error_code_std`: any code other than 0 and -1 leaves the reply as it was.
unfoldable pub set_server_error_code_std : Reply → ℤ → Reply
set_server_error_code_std reply req_error_code =
    if int_eq req_error_code (pos 0)
    then record { server_error_code = srv_success }
    else if int_eq req_error_code (negsuc 0)
    then record { server_error_code = srv_err_cn_any }
    else reply

-- Which of the objects of the threads are initialised, and whether SIGINT has its handler.
pub record Resources : Type 0 where
  pub mutex_conn_q : Bool
  pub cond_conn_q_not_empty : Bool
  pub cond_conn_q_not_full : Bool
  pub th_attr : Bool
  pub mutex_db : Bool
  pub handler : Bool

-- lines 117-135 of `main`
unfoldable pub init_resources : Resources → Resources
init_resources r = record r {
  mutex_conn_q = true;
  cond_conn_q_not_empty = true;
  cond_conn_q_not_full = true;
  th_attr = true;
  mutex_db = true;
  handler = true;
}

-- `shutdown_server`: the code with which the process ends, and what it leaves initialised
unfoldable pub shutdown_server : Resources → ℤ × Resources
shutdown_server r = (pos 0, record r { mutex_conn_q = false; mutex_db = false; th_attr = false })

-- Of what `main` sets up, the handler destroys all but the two condition variables.
shutdown_server-init_resources :
    (r : Resources)
    → shutdown_server (init_resources r) ≡ (
      pos 0,
      record {
        mutex_conn_q = false;
        cond_conn_q_not_empty = true;
        cond_conn_q_not_full = true;
        th_attr = false;
        mutex_db = false;
        handler = true;
      },
    )
unfolding shutdown_server init_resources
shutdown_server-init_resources r = refl
