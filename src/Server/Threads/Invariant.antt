-- ===== src/Server/Threads/Invariant.antt =====
-- What holds in every state that the threads of app/server.c can reach.
use ds_lab_assignment.Prelude.{
  ℕ, suc, ◌<◌, ◌≡◌, ◌≢◌, refl, sym, append-nil, ap, ◌∙◌, Bool, true, false, List, [], ◌∷◌, ◌++◌,
  append_assoc, length, All, arith,
}
use ds_lab_assignment.Util.Codes.{max_conn_backlog}
use ds_lab_assignment.Server.Queue.{Queue, enqueue, dequeue}
use ds_lab_assignment.Server.Queue.Laws.{IsValid, waiting, length-waiting, enqueue_lem, dequeue_lem}
use ds_lab_assignment.Server.Threads.{
  thread_pool_size, Thread, ready, asleep, busy, Main, accepting, holding, blocked, System, Wakes,
  one, nobody, Signals, sent, unsent, wake_main, Step, accept, put, main_waits, main_wakes, take,
  waits, wakes, finishes, init, Reach, start, later,
}

-- Some thread is not asleep.
abbrev pub Awake : List Thread → Type 0
Awake [] = ⊥
Awake (asleep ∷ threads) = Awake threads
Awake (t ∷ threads) = Unit

-- the connection that the main thread has
abbrev pub held : Main → List ℕ
held accepting = []
held (holding sd) = sd ∷ []
held (blocked sd) = sd ∷ []

held_wake_main : (b : Bool) (m : Main) → held (wake_main b m) ≡ held m
held_wake_main true accepting = refl
held_wake_main true (holding sd) = refl
held_wake_main true (blocked sd) = refl
held_wake_main false m = refl

pub record Inv (s : System) : Type 0 where
  pub valid : IsValid s.queue
  pub fifo : s.accepted ≡ s.taken ++ (waiting s.queue ++ held s.main)
  pub pool : length s.threads ≡ thread_pool_size
  pub awake : 0 < s.queue.conn_q_size → Awake s.threads
  pub full : (sd : ℕ) → s.main ≡ blocked sd → s.queue.conn_q_size ≡ max_conn_backlog

Awake-middle : (before after : List Thread) (t : Thread) → t ≢ asleep → Awake (before ++ t ∷ after)
Awake-middle [] after asleep h = absurd (h refl)
Awake-middle [] after ready h = tt
Awake-middle [] after (busy sd) h = tt
Awake-middle (asleep ∷ before) after t h = Awake-middle before after t h
Awake-middle (ready ∷ before) after t h = tt
Awake-middle (busy sd ∷ before) after t h = tt

Awake-none :
    (threads : List Thread) → All (λ t. t ≢ asleep) threads → 0 < length threads → Awake threads
Awake-none [] a h = absurd (omega arith)
Awake-none (asleep ∷ threads) a h = absurd (a.0 refl)
Awake-none (ready ∷ threads) a h = tt
Awake-none (busy sd ∷ threads) a h = tt

Wakes-Awake : {ts us : List Thread} → Wakes ts us → 0 < length ts → Awake us
Wakes-Awake (one before after) h = Awake-middle before after ready (λ e. cc)
Wakes-Awake (nobody {threads} a) h = Awake-none threads a h

length-middle :
    (before after : List Thread) (t u : Thread)
    → length (before ++ t ∷ after) ≡ length (before ++ u ∷ after)
length-middle [] after t u = refl
length-middle (b ∷ before) after t u = ap suc (length-middle before after t u)

Wakes-length : {ts us : List Thread} → Wakes ts us → length us ≡ length ts
Wakes-length (one before after) = length-middle before after ready asleep
Wakes-length (nobody a) = refl

Signals-length : {b : Bool} {ts us : List Thread} → Signals b ts us → length us ≡ length ts
Signals-length (sent w) = Wakes-length w
Signals-length unsent = refl

-- a signal is sent if the queue was empty; otherwise some thread was awake before
Signals-Awake :
    {b : Bool} {ts us : List Thread}
    → Signals b ts us
    → 0 < length ts
    → (b ≡ false → Awake ts)
    → Awake us
Signals-Awake (sent w) h k = Wakes-Awake w h
Signals-Awake unsent h k = k refl

-- the main thread sleeps behind a signal only if there was none
blocked_before :
    (b : Bool) (m : Main) (sd : ℕ) → wake_main b m ≡ blocked sd → (b ≡ false) × (m ≡ blocked sd)
blocked_before true accepting sd e = cc
blocked_before true (holding x) sd e = cc
blocked_before true (blocked x) sd e = cc
blocked_before false m sd e = (refl, e)

-- a connection behind all others
accepted_one :
    (taken wait accepted : List ℕ) (sd : ℕ)
    → accepted ≡ taken ++ (wait ++ [])
    → accepted ++ sd ∷ [] ≡ taken ++ (wait ++ sd ∷ [])
accepted_one taken wait accepted sd e = cc (e, append-nil wait, append_assoc taken wait (sd ∷ []))

Step-Inv : {s t : System} → Step s t → Inv s → Inv t
Step-Inv {s} (accept sd m) v = record {
  valid = v.valid;
  fifo =
      accepted_one s.taken (waiting s.queue) s.accepted sd
        (v.fifo ∙ ap (λ h. s.taken ++ (waiting s.queue ++ held h)) m);
  pool = v.pool;
  awake = v.awake;
  full = λ sd' e. cc;
}
Step-Inv {s} (put sd m room sig) v =
    let (valid, order, signal) = enqueue_lem sd s.queue v.valid (ground arith) in
    record {
      valid = valid;
      fifo =
          v.fifo
          ∙ ap (λ xs. s.taken ++ xs)
              (ap (λ h. waiting s.queue ++ held h) m
                ∙ (sym order ∙ sym (append-nil (waiting (enqueue sd s.queue).0))));
      pool = Signals-length sig ∙ v.pool;
      awake = λ _. Signals-Awake sig (omega arith) (λ quiet. v.awake (ground arith));
      full = λ sd' e. cc;
    }
Step-Inv {s} (main_waits sd m f) v = record {
  valid = v.valid;
  fifo = v.fifo ∙ ap (λ h. s.taken ++ (waiting s.queue ++ held h)) m;
  pool = v.pool;
  awake = v.awake;
  full = λ sd' e. ground arith;
}
Step-Inv {s} (main_wakes sd m) v = record {
  valid = v.valid;
  fifo = v.fifo ∙ ap (λ h. s.taken ++ (waiting s.queue ++ held h)) m;
  pool = v.pool;
  awake = v.awake;
  full = λ sd' e. cc;
}
Step-Inv {s} (take before after e some_wait) v =
    let (valid, order, signal) = dequeue_lem s.queue v.valid (ground arith) in
    record {
      valid = valid;
      fifo = cc (
        v.fifo,
        order,
        held_wake_main (dequeue s.queue).2 s.main,
        append_assoc s.taken ((dequeue s.queue).0 ∷ [])
            (waiting (dequeue s.queue).1 ++ held s.main),
      );
      pool = length-middle before after (busy (dequeue s.queue).0) ready ∙ (rw e at v.pool);
      awake = λ _. Awake-middle before after (busy (dequeue s.queue).0) (λ h. cc);
      full = λ sd blocks.
          let (quiet, was_blocked) = blocked_before (dequeue s.queue).2 s.main sd blocks in
          absurd (ground (arith, v.full sd was_blocked));
    }
Step-Inv (waits before after e none_wait) v = record {
  valid = v.valid;
  fifo = v.fifo;
  pool = length-middle before after asleep ready ∙ (rw e at v.pool);
  awake = λ h. absurd (ground arith);
  full = v.full;
}
Step-Inv (wakes before after e) v = record {
  valid = v.valid;
  fifo = v.fifo;
  pool = length-middle before after ready asleep ∙ (rw e at v.pool);
  awake = λ h. Awake-middle before after ready (λ h. cc);
  full = v.full;
}
Step-Inv (finishes before after sd e) v = record {
  valid = v.valid;
  fifo = v.fifo;
  pool = length-middle before after ready (busy sd) ∙ (rw e at v.pool);
  awake = λ h. Awake-middle before after ready (λ h. cc);
  full = v.full;
}

Inv-init : Inv init
Inv-init = record {
  valid = record { whole = refl; size_in = omega arith; service_in = omega arith; ahead = refl };
  fifo = refl;
  pool = refl;
  awake = λ h. tt;
  full = λ sd e. cc;
}

Reach-Inv : {s : System} → Reach s → Inv s
Reach-Inv start = Inv-init
Reach-Inv (later r st) = Step-Inv st (Reach-Inv r)

-- In every reachable state the connections that `accept` has given are those that service threads have
-- taken, in the order in which they took them, behind them those that wait in the queue, and last the
-- one that the main thread has in hand, if it has one, awake or asleep: none is lost, taken twice or
-- overtaken. The queue holds at most ten, and its positions lie in its array.
pub connections_in_order :
    {s : System}
    → Reach s
    → (s.accepted ≡ s.taken ++ (waiting s.queue ++ held s.main)) × IsValid s.queue
connections_in_order r = let v = Reach-Inv r in (v.fifo, v.valid)

-- In every reachable state in which a connection waits in the queue, not all service threads sleep.
pub not_all_asleep : {s : System} → Reach s → waiting s.queue ≢ [] → Awake s.threads
not_all_asleep {s} r h = (Reach-Inv r).awake (ne_empty s.queue h)
  where
    ne_empty : (q : Queue) → waiting q ≢ [] → 0 < q.conn_q_size
    ne_empty q some_wait = grind (arith, length-waiting q)

-- In every reachable state in which the main thread sleeps with a connection, the queue is full.
pub blocked_full :
    {s : System} {sd : ℕ} → Reach s → s.main ≡ blocked sd → s.queue.conn_q_size ≡ max_conn_backlog
blocked_full {sd = sd} r h = (Reach-Inv r).full sd h
