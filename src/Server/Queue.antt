-- ===== src/Server/Queue.antt =====
-- The connection queue of app/server.c: an array that the main thread fills and the service threads
-- empty, each inside the mutex.
pub mod Laws
use ds_lab_assignment.Prelude.{ℕ, ◌+◌, ◌-◌, ◌%◌, ◌==◌, Bool, List, length, get_or, set}
use ds_lab_assignment.Util.Codes.{max_conn_backlog}

-- `conn_q`, `conn_q_size`, `service_th_pos`, and `producer_pos` of `main`.
pub record Queue : Type 0 where
  pub conn_q : List ℕ
  pub conn_q_size : ℕ
  pub service_th_pos : ℕ
  pub producer_pos : ℕ

-- `conn_q_size == 0`
abbrev pub is_empty : Queue → Bool
is_empty q = q.conn_q_size == 0

-- `conn_q_size == MAX_CONN_BACKLOG`
abbrev pub is_full : Queue → Bool
is_full q = q.conn_q_size == max_conn_backlog

-- The main thread's part behind its wait: the queue, and whether it signals that it is not empty.
unfoldable pub enqueue : ℕ → Queue → Queue × Bool
enqueue client_sd q = (
  record q {
    conn_q = set q.conn_q q.producer_pos client_sd;
    producer_pos = (q.producer_pos + 1) % max_conn_backlog;
    conn_q_size = q.conn_q_size + 1;
  },
  q.conn_q_size + 1 == 1,
)

-- A service thread's part behind its wait: the connection, the queue, and whether it signals that
-- it is not full. `conn_q_size -= 1` runs only where the queue is not empty.
unfoldable pub dequeue : Queue → ℕ × Queue × Bool
dequeue q = (
  get_or q.conn_q q.service_th_pos 0,
  record q {
    service_th_pos = (q.service_th_pos + 1) % max_conn_backlog;
    conn_q_size = q.conn_q_size - 1;
  },
  q.conn_q_size - 1 == max_conn_backlog - 1,
)
