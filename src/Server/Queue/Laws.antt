-- ===== src/Server/Queue/Laws.antt =====
-- The connection queue of app/server.c holds the connections in the order of their arrival.
use ds_lab_assignment.Prelude.{
  ℕ, zero, suc, ◌+◌, ◌-◌, ◌%◌, ◌≤◌, ◌<◌, ◌≡◌, ◌≢◌, refl, ap, ◌==◌, List, [], ◌∷◌, ◌++◌, length,
  get_or, set, length-set, get_or-set_self, get_or-set_ne, arith,
}
use ds_lab_assignment.Util.Codes.{max_conn_backlog}
use ds_lab_assignment.Server.Queue.{Queue, enqueue, dequeue}

-- the `n` connections from position `i` on, going round the array
abbrev pub window : List ℕ → ℕ → ℕ → List ℕ
window conn_q i zero = []
window conn_q i (suc n) = get_or conn_q i 0 ∷ window conn_q ((i + 1) % max_conn_backlog) n

-- the waiting connections, oldest first
abbrev pub waiting : Queue → List ℕ
waiting q = window q.conn_q q.service_th_pos q.conn_q_size

-- The array has its size, both positions lie in it, and the producer's is `conn_q_size` ahead.
pub record IsValid (q : Queue) : Type 0 where
  pub whole : length q.conn_q ≡ max_conn_backlog
  pub size_in : q.conn_q_size ≤ max_conn_backlog
  pub service_in : q.service_th_pos < max_conn_backlog
  pub ahead : q.producer_pos ≡ (q.service_th_pos + q.conn_q_size) % max_conn_backlog

-- what is written past a window does not show in it, and extends it by one
window-set :
    (conn_q : List ℕ) (x i n j : ℕ)
    → length conn_q ≡ max_conn_backlog
    → i < max_conn_backlog
    → n < max_conn_backlog
    → j ≡ (i + n) % max_conn_backlog
    → window (set conn_q j x) i (suc n) ≡ window conn_q i n ++ x ∷ []
window-set conn_q x i zero j l hi hn e =
    let same : j ≡ i = omega arith in rw (same, get_or-set_self conn_q i x 0 (omega arith))
window-set conn_q x i (suc n) j l hi hn e =
    let differ : j ≢ i = omega arith in
    ground (
      arith,
      get_or-set_ne conn_q {i = j} {j = i} x 0 differ,
      window-set conn_q x ((i + 1) % max_conn_backlog) n j l (omega arith) (omega arith)
          (omega arith),
    )

window_of_pos :
    (conn_q : List ℕ) (i n : ℕ)
    → 0 < n
    → window conn_q i n ≡ get_or conn_q i 0 ∷ window conn_q ((i + 1) % max_conn_backlog) (n - 1)
window_of_pos conn_q i zero h = absurd (omega arith)
window_of_pos conn_q i (suc n) h = let same : suc n - 1 ≡ n = omega arith in rw same

-- With room in the queue, what the main thread does keeps the queue valid, puts the connection
-- behind all that wait and moves none of them, and it signals exactly if none waited.
pub enqueue_lem :
    (sd : ℕ) (q : Queue)
    → IsValid q
    → q.conn_q_size < max_conn_backlog
    → let (q', signal) = enqueue sd q in
      IsValid q' × (waiting q' ≡ waiting q ++ sd ∷ []) × (signal ≡ (q.conn_q_size == 0))
unfolding enqueue
enqueue_lem sd q v room = (
  record {
    whole = ground (arith, length-set q.conn_q q.producer_pos sd);
    size_in = omega arith;
    service_in = v.service_in;
    ahead = omega arith;
  },
  let grown : q.conn_q_size + 1 ≡ suc q.conn_q_size = omega arith in
      rw grown (
        window-set q.conn_q sd q.service_th_pos q.conn_q_size q.producer_pos v.whole v.service_in
          room v.ahead),
  ground arith,
)

-- With a connection in the queue, what a service thread does keeps the queue valid, gives the
-- connection that has waited longest and leaves the others in their order, and it signals exactly if
-- the queue was full.
pub dequeue_lem :
    (q : Queue)
    → IsValid q
    → 0 < q.conn_q_size
    → let (sd, q', signal) = dequeue q in
      IsValid q' × (waiting q ≡ sd ∷ waiting q') × (signal ≡ (q.conn_q_size == max_conn_backlog))
unfolding dequeue
dequeue_lem q v some_wait = (
  record { whole = v.whole; size_in = omega arith; service_in = omega arith; ahead = omega arith },
  window_of_pos q.conn_q q.service_th_pos q.conn_q_size some_wait,
  ground arith,
)

length-window : (conn_q : List ℕ) (i n : ℕ) → length (window conn_q i n) ≡ n
length-window conn_q i zero = refl
length-window conn_q i (suc n) = ap suc (length-window conn_q ((i + 1) % max_conn_backlog) n)

pub length-waiting : (q : Queue) → length (waiting q) ≡ q.conn_q_size
length-waiting q = length-window q.conn_q q.service_th_pos q.conn_q_size
