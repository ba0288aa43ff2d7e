-- ===== src/Server/Threads/Wakeups.antt =====
-- A wakeup that app/server.c does not send: it signals that the queue is not empty only when the
-- size becomes 1.
use ds_lab_assignment.Prelude.{ℕ, ◌≡◌, refl, [], ◌∷◌}
use ds_lab_assignment.Server.Queue.{enqueue, dequeue}
use ds_lab_assignment.Server.Queue.Laws.{waiting}
use ds_lab_assignment.Server.Threads.{
  ready, asleep, busy, accepting, System, one, sent, unsent, accept, put, take, waits, Reach, start,
  later, init,
}

-- For any two connections: the server can come to a state in which the second one waits in the
-- queue, one service thread is busy with the first, and the other four are asleep, with no signal
-- under way.
pub lost_wakeup :
    (a b : ℕ)
    → (s : System) × Reach s
      × (waiting s.queue ≡ b ∷ [])
      × (s.threads ≡ busy a ∷ asleep ∷ asleep ∷ asleep ∷ asleep ∷ [])
      × (s.main ≡ accepting)
unfolding enqueue dequeue
lost_wakeup a b = (_, busy_one, refl, refl, refl)
  where
    all_asleep : Reach (record init { threads = asleep ∷ asleep ∷ asleep ∷ asleep ∷ asleep ∷ [] })
    all_asleep =
        later
          (later
            (later
              (later (later start (waits [] (ready ∷ ready ∷ ready ∷ ready ∷ []) refl refl))
                (waits (asleep ∷ []) (ready ∷ ready ∷ ready ∷ []) refl refl))
              (waits (asleep ∷ asleep ∷ []) (ready ∷ ready ∷ []) refl refl))
            (waits (asleep ∷ asleep ∷ asleep ∷ []) (ready ∷ []) refl refl))
          (waits (asleep ∷ asleep ∷ asleep ∷ asleep ∷ []) [] refl refl)

    -- the first connection wakes one thread, the second none
    both_put : Reach (record {
      queue = (enqueue b (enqueue a init.queue).0).0;
      main = accepting;
      threads = ready ∷ asleep ∷ asleep ∷ asleep ∷ asleep ∷ [];
      accepted = a ∷ b ∷ [];
      taken = [];
    })
    both_put =
        later
          (later
            (later (later all_asleep (accept a refl))
              (put a refl refl (sent (one [] (asleep ∷ asleep ∷ asleep ∷ asleep ∷ [])))))
            (accept b refl))
          (put b refl refl unsent)

    busy_one : Reach (record {
      queue = (dequeue (enqueue b (enqueue a init.queue).0).0).1;
      main = accepting;
      threads = busy a ∷ asleep ∷ asleep ∷ asleep ∷ asleep ∷ [];
      accepted = a ∷ b ∷ [];
      taken = a ∷ [];
    })
    busy_one = later both_put (take [] (asleep ∷ asleep ∷ asleep ∷ asleep ∷ []) refl refl)
