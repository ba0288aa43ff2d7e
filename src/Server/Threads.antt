-- ===== src/Server/Threads.antt =====
-- The main thread and the service threads of app/server.c. What a thread does while it holds
-- `mutex_conn_q` is one step, since the mutex lets no other thread in between; `pthread_cond_wait`
-- gives the mutex back and sleeps in one step, and a woken thread tests its condition again. A
-- sleeping thread may also wake without a signal.
pub mod Invariant
pub mod Wakeups
use ds_lab_assignment.Prelude.{ℕ, zero, suc, ◌≡◌, ◌≢◌, Bool, true, false, List, [], ◌∷◌, ◌++◌, All}
use ds_lab_assignment.Server.Queue.{Queue, is_empty, is_full, enqueue, dequeue}

-- THREAD_POOL_SIZE
abbrev pub thread_pool_size : ℕ
thread_pool_size = 5

-- A service thread: before its test of the queue, asleep in it, or with a connection.
pub data Thread : Type 0 where
  ready asleep : Thread
  busy : ℕ → Thread

-- The main thread: in `accept`, with a connection before its test of the queue, or asleep with it.
pub data Main : Type 0 where
  accepting : Main
  holding : ℕ → Main
  blocked : ℕ → Main

-- `accepted` and `taken` record the connections that `accept` gave and that service threads took.
pub record System : Type 0 where
  pub queue : Queue
  pub main : Main
  pub threads : List Thread
  pub accepted : List ℕ
  pub taken : List ℕ

-- `pthread_cond_signal` of a condition on which service threads sleep: it wakes one, if one sleeps.
pub data Wakes : List Thread → List Thread → Type 0 where
  one : (before after : List Thread) → Wakes (before ++ asleep ∷ after) (before ++ ready ∷ after)
  nobody : {threads : List Thread} → All (λ t. t ≢ asleep) threads → Wakes threads threads

-- the same, if the thread signals at all
pub data Signals : Bool → List Thread → List Thread → Type 0 where
  sent : {threads woken : List Thread} → Wakes threads woken → Signals true threads woken
  unsent : {threads : List Thread} → Signals false threads threads

-- the signal to the main thread
abbrev pub wake_main : Bool → Main → Main
wake_main true (blocked sd) = holding sd
wake_main _ m = m

pub data Step (s : System) : System → Type 0 where
  accept :
      (sd : ℕ)
      → s.main ≡ accepting
      → Step s (record s { main = holding sd; accepted = s.accepted ++ sd ∷ [] })
  put :
      (sd : ℕ) {threads : List Thread}
      → s.main ≡ holding sd
      → is_full s.queue ≡ false
      → Signals (enqueue sd s.queue).1 s.threads threads
      → Step s (record s { queue = (enqueue sd s.queue).0; main = accepting; threads = threads })
  main_waits :
      (sd : ℕ)
      → s.main ≡ holding sd
      → is_full s.queue ≡ true
      → Step s (record s { main = blocked sd })
  main_wakes : (sd : ℕ) → s.main ≡ blocked sd → Step s (record s { main = holding sd })
  take :
      (before after : List Thread)
      → s.threads ≡ before ++ ready ∷ after
      → is_empty s.queue ≡ false
      → Step s (record s {
        queue = (dequeue s.queue).1;
        main = wake_main (dequeue s.queue).2 s.main;
        threads = before ++ busy (dequeue s.queue).0 ∷ after;
        taken = s.taken ++ (dequeue s.queue).0 ∷ [];
      })
  waits :
      (before after : List Thread)
      → s.threads ≡ before ++ ready ∷ after
      → is_empty s.queue ≡ true
      → Step s (record s { threads = before ++ asleep ∷ after })
  wakes :
      (before after : List Thread)
      → s.threads ≡ before ++ asleep ∷ after
      → Step s (record s { threads = before ++ ready ∷ after })
  finishes :
      (before after : List Thread) (sd : ℕ)
      → s.threads ≡ before ++ busy sd ∷ after
      → Step s (record s { threads = before ++ ready ∷ after })

abbrev zeros : List ℕ
zeros = 0 ∷ 0 ∷ 0 ∷ 0 ∷ 0 ∷ 0 ∷ 0 ∷ 0 ∷ 0 ∷ 0 ∷ []

-- the server behind the creation of its threads
abbrev pub init : System
init = record {
  queue = record { conn_q = zeros; conn_q_size = 0; service_th_pos = 0; producer_pos = 0 };
  main = accepting;
  threads = ready ∷ ready ∷ ready ∷ ready ∷ ready ∷ [];
  accepted = [];
  taken = [];
}

pub data Reach : System → Type 0 where
  start : Reach init
  later : {s t : System} → Reach s → Step s t → Reach t
