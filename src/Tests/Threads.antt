-- ===== src/Tests/Threads.antt =====
-- The queue and the threads, at concrete states.
use ds_lab_assignment.Prelude.{◌≡◌, refl, [], ◌∷◌, ◌++◌}
use ds_lab_assignment.Util.Codes.{max_conn_backlog}
use ds_lab_assignment.Server.Queue.{Queue, enqueue}
use ds_lab_assignment.Server.Queue.Laws.{waiting, IsValid}
use ds_lab_assignment.Server.Threads.{
  asleep, busy, accepting, blocked, System, nobody, sent, unsent, accept, put, main_waits, Reach,
  start, later, init,
}
use ds_lab_assignment.Server.Threads.Invariant.{
  Awake, held, connections_in_order, not_all_asleep, blocked_full,
}
use ds_lab_assignment.Server.Threads.Wakeups.{lost_wakeup}

-- one connection has been put into the queue
abbrev one_waits : System
one_waits = record {
  queue = (enqueue 4 init.queue).0;
  main = accepting;
  threads = init.threads;
  accepted = 4 ∷ [];
  taken = [];
}

one_waits-Reach : Reach one_waits
unfolding enqueue
one_waits-Reach = later (later start (accept 4 refl)) (
    put 4 refl refl
      (sent (nobody ((λ e. cc), ((λ e. cc), ((λ e. cc), ((λ e. cc), ((λ e. cc), tt))))))))

not_all_asleep_example : Awake one_waits.threads
unfolding enqueue
not_all_asleep_example = not_all_asleep one_waits-Reach (λ e. cc)

lost_wakeup_example :
    (s : System) × Reach s
    × (waiting s.queue ≡ 5 ∷ [])
    × (s.threads ≡ busy 4 ∷ asleep ∷ asleep ∷ asleep ∷ asleep ∷ [])
    × (s.main ≡ accepting)
lost_wakeup_example = lost_wakeup 4 5

-- the queue is full, and the main thread sleeps with one more connection
abbrev full_queue : Queue
full_queue = record {
  conn_q = 4 ∷ 4 ∷ 4 ∷ 4 ∷ 4 ∷ 4 ∷ 4 ∷ 4 ∷ 4 ∷ 4 ∷ [];
  conn_q_size = 10;
  service_th_pos = 0;
  producer_pos = 0;
}

abbrev main_asleep : System
main_asleep = record {
  queue = full_queue;
  main = blocked 4;
  threads = init.threads;
  accepted = 4 ∷ 4 ∷ 4 ∷ 4 ∷ 4 ∷ 4 ∷ 4 ∷ 4 ∷ 4 ∷ 4 ∷ 4 ∷ [];
  taken = [];
}

main_asleep-Reach : Reach main_asleep
unfolding enqueue
main_asleep-Reach =
    let r1 = one_waits-Reach in
    let r2 = later (later r1 (accept 4 refl)) (put 4 refl refl unsent) in
    let r3 = later (later r2 (accept 4 refl)) (put 4 refl refl unsent) in
    let r4 = later (later r3 (accept 4 refl)) (put 4 refl refl unsent) in
    let r5 = later (later r4 (accept 4 refl)) (put 4 refl refl unsent) in
    let r6 = later (later r5 (accept 4 refl)) (put 4 refl refl unsent) in
    let r7 = later (later r6 (accept 4 refl)) (put 4 refl refl unsent) in
    let r8 = later (later r7 (accept 4 refl)) (put 4 refl refl unsent) in
    let r9 = later (later r8 (accept 4 refl)) (put 4 refl refl unsent) in
    let r10 = later (later r9 (accept 4 refl)) (put 4 refl refl unsent) in
    later (later r10 (accept 4 refl)) (main_waits 4 refl refl)

blocked_full_example : main_asleep.queue.conn_q_size ≡ max_conn_backlog
blocked_full_example = blocked_full main_asleep-Reach refl

connections_in_order_example :
    (main_asleep.accepted
      ≡ main_asleep.taken ++ (waiting main_asleep.queue ++ held main_asleep.main))
    × IsValid main_asleep.queue
connections_in_order_example = connections_in_order main_asleep-Reach
