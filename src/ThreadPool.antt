-- ===== src/ThreadPool.antt =====
-- src/pjl/thread_pool.h and src/pjl/thread_pool.cpp: the pool as a step relation, for any order of the threads. A
-- step is what a thread does while it has a lock, or between two of them: `t_lock_` and `t_busy_lock_` are
-- taken and released within a step, `q_lock_` over several. `pthread_cond_signal` unblocks a waiting thread if there
-- is one, and is lost otherwise; as its documentation allows, a wait may also end with no signal. Not modelled: the
-- destructor of the pool and the cancelling of threads.
pub mod Moves
pub mod Invariant
pub mod Signals
pub mod Progress
use swishxx.Common.{
  ℕ, zero, suc, ◌+◌, ◌-◌, ◌≤◌, ◌<◌, ◌≡◌, Bool, true, false, List, [], ◌∷◌, ◌++◌, ltb, ◌==◌,
  if◌then◌else◌, length, All,
}

-- Where a thread is in `thread_pool_thread_main`. `woken` is behind a wait, before it has `q_lock_` again; at `testing`
-- and `dying` it has it. The flag is whether the wait ended by a time-out. `taken` is between the two locks,
-- with a task.
pub data Pc : Type 0 where
  top waiting timed_waiting dying : Pc
  woken testing : Bool → Pc
  taken busy : ℕ → Pc

-- Where the caller of `new_task` is: the task is to be queued, or it waits for an idle thread first, or this wait has
-- ended.
pub data Client : Type 0 where
  outside : Client
  pushing idle_waiting idle_woken : ℕ → Client

-- `pushed` and `popped` record all the tasks that went into the queue, and out of it.
pub record Pool : Type 0 where
  pub q_locked : Bool
  pub queue : List ℕ
  pub t_busy : ℕ
  pub pushed : List ℕ
  pub popped : List ℕ

pub record State : Type 0 where
  pub pool : Pool
  pub threads : List Pc
  pub client : Client

abbrev pub set_q_locked : Bool → Pool → Pool
set_q_locked b p = record {
  q_locked = b;
  queue = p.queue;
  t_busy = p.t_busy;
  pushed = p.pushed;
  popped = p.popped;
}

abbrev pub set_t_busy : ℕ → Pool → Pool
set_t_busy n p = record {
  q_locked = p.q_locked;
  queue = p.queue;
  t_busy = n;
  pushed = p.pushed;
  popped = p.popped;
}

-- `queue_.front()`, `pop()` and the release of `q_lock_`.
abbrev pub pop : ℕ → List ℕ → Pool → Pool
pop task queue p = record {
  q_locked = false;
  queue = queue;
  t_busy = p.t_busy;
  pushed = p.pushed;
  popped = p.popped ++ (task ∷ []);
}

abbrev pub push : ℕ → Pool → Pool
push task p = record {
  q_locked = p.q_locked;
  queue = p.queue ++ (task ∷ []);
  t_busy = p.t_busy;
  pushed = p.pushed ++ (task ∷ []);
  popped = p.popped;
}

-- One step of a thread, while there are `n` threads.
pub data Move (min_threads n : ℕ) (p : Pool) : Pc → Pc → Pool → Type 0 where
  lock_queue : p.q_locked ≡ false → Move min_threads n p top (testing false) (set_q_locked true p)
  wait_task :
      {timed_out : Bool}
      → p.queue ≡ []
      → n ≤ min_threads
      → Move min_threads n p (testing timed_out) waiting (set_q_locked false p)
  wait_a_while :
      p.queue ≡ []
      → min_threads < n
      → Move min_threads n p (testing false) timed_waiting (set_q_locked false p)
  give_up : p.queue ≡ [] → min_threads < n → Move min_threads n p (testing true) dying p
  wake_up :
      {timed_out : Bool}
      → p.q_locked ≡ false
      → Move min_threads n p (woken timed_out) (testing timed_out) (set_q_locked true p)
  pop_task :
      {timed_out : Bool} {task : ℕ} {queue : List ℕ}
      → p.queue ≡ task ∷ queue
      → Move min_threads n p (testing timed_out) (taken task) (pop task queue p)
  start_task :
      {task : ℕ} → Move min_threads n p (taken task) (busy task) (set_t_busy (p.t_busy + 1) p)
  end_task : {task : ℕ} → Move min_threads n p (busy task) top (set_t_busy (p.t_busy - 1) p)

-- What `new_task` does under `t_lock_`.
pub data Turn : Type 0 where
  queue_task create_thread wait_idle refuse : Turn

unfoldable pub new_task_turn : ℕ → ℕ → ℕ → Bool → Turn
new_task_turn max_threads n t_busy block =
    if t_busy == n
    then (if ltb n max_threads then create_thread else if block then wait_idle else refuse)
    else queue_task

abbrev pub client_at : Turn → ℕ → Client
client_at wait_idle task = idle_waiting task
client_at refuse task = outside
client_at _ task = pushing task

abbrev pub created : Turn → List Pc → List Pc
created create_thread threads = top ∷ threads
created _ threads = threads

-- `pthread_cond_signal( &t_idle_ )`, which a thread calls just when it has found the queue empty.
abbrev pub signal_idle : Client → Client
signal_idle (idle_waiting task) = idle_woken task
signal_idle c = c

abbrev pub client_behind : Pc → Client → Client
client_behind waiting c = signal_idle c
client_behind timed_waiting c = signal_idle c
client_behind dying c = signal_idle c
client_behind _ c = c

-- One step of one of the threads.
pub data ThreadStep (min_threads : ℕ) : State → State → Type 0 where
  thread_moves :
      {p q : Pool} {c : Client} {pc pc' : Pc} (front back : List Pc)
      → Move min_threads (length (front ++ (pc ∷ back))) p pc pc' q
      → ThreadStep min_threads
          (record { pool = p; threads = front ++ (pc ∷ back); client = c })
          (record { pool = q; threads = front ++ (pc' ∷ back); client = client_behind pc' c })
  thread_ends :
      {p : Pool} {c : Client} (front back : List Pc)
      → ThreadStep min_threads
          (record { pool = p; threads = front ++ (dying ∷ back); client = c })
          (record { pool = set_q_locked false p; threads = front ++ back; client = c })

abbrev pub is_waiting : Pc → Bool
is_waiting waiting = true
is_waiting timed_waiting = true
is_waiting _ = false

-- `pthread_cond_signal( &q_not_empty_ )`: which thread is unblocked is not said.
pub data Signal : List Pc → List Pc → Type 0 where
  unblocks :
      (pc : Pc) (front back : List Pc)
      → is_waiting pc ≡ true
      → Signal (front ++ (pc ∷ back)) (front ++ (woken false ∷ back))
  unheard : {threads : List Pc} → All (λ pc. is_waiting pc ≡ false) threads → Signal threads threads

pub data Step (min_threads max_threads : ℕ) : State → State → Type 0 where
  thread_steps : {s t : State} → ThreadStep min_threads s t → Step min_threads max_threads s t
  time_out :
      {p : Pool} {c : Client} (front back : List Pc)
      → Step min_threads max_threads
          (record { pool = p; threads = front ++ (timed_waiting ∷ back); client = c })
          (record { pool = p; threads = front ++ (woken true ∷ back); client = c })
  spurious_wake :
      {p : Pool} {c : Client} (pc : Pc) (front back : List Pc)
      → is_waiting pc ≡ true
      → Step min_threads max_threads
          (record { pool = p; threads = front ++ (pc ∷ back); client = c })
          (record { pool = p; threads = front ++ (woken false ∷ back); client = c })
  new_task :
      {p : Pool} {threads : List Pc} (task : ℕ) (block : Bool)
      → Step min_threads max_threads
          (record { pool = p; threads = threads; client = outside })
          (record {
            pool = p;
            threads = created (new_task_turn max_threads (length threads) p.t_busy block) threads;
            client = client_at (new_task_turn max_threads (length threads) p.t_busy block) task;
          })
  client_spurious :
      {p : Pool} {threads : List Pc} {task : ℕ}
      → Step min_threads max_threads
          (record { pool = p; threads = threads; client = idle_waiting task })
          (record { pool = p; threads = threads; client = idle_woken task })
  client_wakes :
      {p : Pool} {threads : List Pc} {task : ℕ}
      → Step min_threads max_threads
          (record { pool = p; threads = threads; client = idle_woken task })
          (record { pool = p; threads = threads; client = pushing task })
  push_task :
      {p : Pool} {threads threads' : List Pc} {task : ℕ}
      → p.q_locked ≡ false
      → Signal threads threads'
      → Step min_threads max_threads
          (record { pool = p; threads = threads; client = pushing task })
          (record { pool = push task p; threads = threads'; client = outside })

-- The constructor: the prototype, and as many more as make `min_threads`.
abbrev pub create_threads : ℕ → List Pc
create_threads zero = []
create_threads (suc n) = top ∷ create_threads n

unfoldable pub initial : ℕ → State
initial min_threads = record {
  pool = record { q_locked = false; queue = []; t_busy = 0; pushed = []; popped = [] };
  threads = top ∷ create_threads (min_threads - 1);
  client = outside;
}

pub data Reach (min_threads max_threads : ℕ) : State → Type 0 where
  start : Reach min_threads max_threads (initial min_threads)
  later :
      {s t : State}
      → Reach min_threads max_threads s
      → Step min_threads max_threads s t
      → Reach min_threads max_threads t
