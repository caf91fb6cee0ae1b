-- ===== src/ThreadPool/Invariant.antt =====
-- What holds of the pool in every state that it can come to.
use swishxx.Common.{
  ℕ, zero, suc, ◌+◌, ◌-◌, ◌≤◌, ◌<◌, ◌≡◌, refl, sym, ap, ◌∙◌, arith, Bool, true, false, List, [],
  ◌∷◌, ◌++◌, length, append_assoc, length-append,
}
use swishxx.ThreadPool.Moves.{
  is_busy, has_lock, is_dying, count, bit, count-append, count-append_nil, count_le, dying_has_lock,
  bit-le, Move-Kept,
}
use swishxx.ThreadPool.{
  Pc, top, waiting, timed_waiting, dying, woken, testing, taken, busy, Client, outside, pushing,
  idle_waiting, idle_woken, Pool, State, set_q_locked, push, Move, Turn, queue_task, create_thread,
  wait_idle, refuse, new_task_turn, client_at, client_behind, created, ThreadStep, thread_moves,
  thread_ends, is_waiting, Signal, unblocks, unheard, Step, thread_steps, time_out, spurious_wake,
  new_task, client_spurious, client_wakes, push_task, create_threads, initial, Reach, start, later,
}

-- `t_busy_` counts the busy threads, `q_lock_` has one owner while it is locked, a thread that is about to
-- end is not needed for the minimum, the size is in its bounds, and the queue is first in, first out.
pub record Inv (min_threads max_threads : ℕ) (s : State) : Type 0 where
  pub counted : count is_busy s.threads ≡ s.pool.t_busy
  pub owned : count has_lock s.threads ≡ bit s.pool.q_locked
  pub spare : min_threads + count is_dying s.threads ≤ length s.threads
  pub limited : length s.threads ≤ max_threads
  pub in_order : s.pool.popped ++ s.pool.queue ≡ s.pool.pushed

thread_moves-Inv :
    {min_threads max_threads : ℕ} {p q : Pool} {pc pc' : Pc} (c c' : Client) (front back : List Pc)
    → Move min_threads (length (front ++ (pc ∷ back))) p pc pc' q
    → Inv min_threads max_threads (record { pool = p; threads = front ++ (pc ∷ back); client = c })
    → Inv min_threads max_threads
        (record { pool = q; threads = front ++ (pc' ∷ back); client = c' })
thread_moves-Inv {p} {q} {pc} {pc'} c c' front back move inv =
    let b = count-append is_busy front pc back in
    let b' = count-append is_busy front pc' back in
    let h = count-append has_lock front pc back in
    let h' = count-append has_lock front pc' back in
    let d = count-append is_dying front pc back in
    let d' = count-append is_dying front pc' back in
    let size = length-append front (pc ∷ back) in
    let size' = length-append front (pc' ∷ back) in
    let in_front = count_le is_dying has_lock dying_has_lock front in
    let behind = count_le is_dying has_lock dying_has_lock back in
    let one = dying_has_lock pc' in
    let owner = bit-le q.q_locked in
    let k =
      Move-Kept move (omega (arith, b, inv.counted)) (omega (arith, h, inv.owned))
        (omega (arith, inv.spare)) in
    record {
      counted = omega (arith, b, b', k.tasks, inv.counted);
      owned = omega (arith, h, h', k.lock, inv.owned);
      spare = omega (
        arith, h, h', d, d', size, size', in_front, behind, one, owner, k.lock, k.need, inv.owned,
        inv.spare,
      );
      limited = omega (arith, size, size', inv.limited);
      in_order = k.order ∙ (inv.in_order ∙ sym k.same);
    }

thread_ends-Inv :
    {min_threads max_threads : ℕ} {p : Pool} {c : Client} (front back : List Pc)
    → Inv min_threads max_threads
        (record { pool = p; threads = front ++ (dying ∷ back); client = c })
    → Inv min_threads max_threads
        (record { pool = set_q_locked false p; threads = front ++ back; client = c })
thread_ends-Inv {p} front back inv =
    let b = count-append is_busy front dying back in
    let b' = count-append_nil is_busy front back in
    let h = count-append has_lock front dying back in
    let h' = count-append_nil has_lock front back in
    let d = count-append is_dying front dying back in
    let d' = count-append_nil is_dying front back in
    let size = length-append front (dying ∷ back) in
    let size' = length-append front back in
    let owner = bit-le p.q_locked in
    record {
      counted = omega (arith, b, b', inv.counted);
      owned = omega (arith, h, h', owner, inv.owned);
      spare = omega (arith, d, d', size, size', inv.spare);
      limited = omega (arith, size, size', inv.limited);
      in_order = inv.in_order;
    }

-- A thread that waits does not count for anything, and neither does one that is woken.
waiting_counts :
    (pc : Pc) → is_waiting pc ≡ true → (is_busy pc ≡ 0) × (has_lock pc ≡ 0) × (is_dying pc ≡ 0)
waiting_counts waiting h = (refl, refl, refl)
waiting_counts timed_waiting h = (refl, refl, refl)
waiting_counts top h = cc h
waiting_counts dying h = cc h
waiting_counts (woken b) h = cc h
waiting_counts (testing b) h = cc h
waiting_counts (taken t) h = cc h
waiting_counts (busy t) h = cc h

wake-Inv :
    {min_threads max_threads : ℕ} {p : Pool} (c : Client) (pc : Pc) (b : Bool)
    (front back : List Pc)
    → is_waiting pc ≡ true
    → Inv min_threads max_threads (record { pool = p; threads = front ++ (pc ∷ back); client = c })
    → Inv min_threads max_threads
        (record { pool = p; threads = front ++ (woken b ∷ back); client = c })
wake-Inv c pc b front back w inv =
    let (no_task, no_lock, no_end) = waiting_counts pc w in
    let tasks = count-append is_busy front pc back in
    let tasks' = count-append is_busy front (woken b) back in
    let locks = count-append has_lock front pc back in
    let locks' = count-append has_lock front (woken b) back in
    let ends = count-append is_dying front pc back in
    let ends' = count-append is_dying front (woken b) back in
    let size = length-append front (pc ∷ back) in
    let size' = length-append front (woken b ∷ back) in
    record {
      counted = omega (arith, tasks, tasks', no_task, inv.counted);
      owned = omega (arith, locks, locks', no_lock, inv.owned);
      spare = omega (arith, ends, ends', size, size', no_end, inv.spare);
      limited = omega (arith, size, size', inv.limited);
      in_order = inv.in_order;
    }

create_thread-limited :
    (max_threads n t_busy : ℕ) (block : Bool)
    → new_task_turn max_threads n t_busy block ≡ create_thread
    → n < max_threads
unfolding new_task_turn
create_thread-limited max_threads n t_busy block e = ground arith

-- The client is not part of it.
client-Inv :
    {min_threads max_threads : ℕ} {p : Pool} {threads : List Pc} (c c' : Client)
    → Inv min_threads max_threads (record { pool = p; threads = threads; client = c })
    → Inv min_threads max_threads (record { pool = p; threads = threads; client = c' })
client-Inv c c' inv = record {
  counted = inv.counted;
  owned = inv.owned;
  spare = inv.spare;
  limited = inv.limited;
  in_order = inv.in_order;
}

new_task-Inv :
    {min_threads max_threads : ℕ} {p : Pool} {threads : List Pc} (c c' : Client) (turn : Turn)
    → (turn ≡ create_thread → length threads < max_threads)
    → Inv min_threads max_threads (record { pool = p; threads = threads; client = c })
    → Inv min_threads max_threads (record { pool = p; threads = created turn threads; client = c' })
new_task-Inv c c' create_thread l inv = record {
  counted = omega (arith, inv.counted);
  owned = omega (arith, inv.owned);
  spare = omega (arith, inv.spare);
  limited = omega (arith, l refl);
  in_order = inv.in_order;
}
new_task-Inv c c' queue_task l inv = client-Inv c c' inv
new_task-Inv c c' wait_idle l inv = client-Inv c c' inv
new_task-Inv c c' refuse l inv = client-Inv c c' inv

push-Inv :
    {min_threads max_threads : ℕ} {p : Pool} {threads : List Pc} (c c' : Client) (task : ℕ)
    → Inv min_threads max_threads (record { pool = p; threads = threads; client = c })
    → Inv min_threads max_threads (record { pool = push task p; threads = threads; client = c' })
push-Inv {p} c c' task inv = record {
  counted = inv.counted;
  owned = inv.owned;
  spare = inv.spare;
  limited = inv.limited;
  in_order =
      sym (append_assoc p.popped p.queue (task ∷ [])) ∙ ap (λ x. x ++ (task ∷ [])) inv.in_order;
}

Signal-Inv :
    {min_threads max_threads : ℕ} {p : Pool} {threads threads' : List Pc} (c : Client)
    → Signal threads threads'
    → Inv min_threads max_threads (record { pool = p; threads = threads; client = c })
    → Inv min_threads max_threads (record { pool = p; threads = threads'; client = c })
Signal-Inv c (unblocks pc front back w) inv = wake-Inv c pc false front back w inv
Signal-Inv c (unheard none) inv = inv

ThreadStep-Inv :
    {min_threads max_threads : ℕ} {s t : State}
    → ThreadStep min_threads s t
    → Inv min_threads max_threads s
    → Inv min_threads max_threads t
ThreadStep-Inv (thread_moves {c = c} {pc' = pc'} front back move) inv =
    thread_moves-Inv c (client_behind pc' c) front back move inv
ThreadStep-Inv (thread_ends front back) inv = thread_ends-Inv front back inv

-- Every step of the pool keeps the invariant.
pub Step-Inv :
    {min_threads max_threads : ℕ} {s t : State}
    → Step min_threads max_threads s t
    → Inv min_threads max_threads s
    → Inv min_threads max_threads t
Step-Inv (thread_steps st) inv = ThreadStep-Inv st inv
Step-Inv (time_out {c = c} front back) inv = wake-Inv c timed_waiting true front back refl inv
Step-Inv (spurious_wake {c = c} pc front back w) inv = wake-Inv c pc false front back w inv
Step-Inv {max_threads} (new_task {p} {threads} task block) inv =
    let turn = new_task_turn max_threads (length threads) p.t_busy block in
    new_task-Inv outside (client_at turn task) turn
      (create_thread-limited max_threads (length threads) p.t_busy block) inv
Step-Inv (client_spurious {task = task}) inv = client-Inv (idle_waiting task) (idle_woken task) inv
Step-Inv (client_wakes {task = task}) inv = client-Inv (idle_woken task) (pushing task) inv
Step-Inv (push_task {task = task} free signal) inv =
    Signal-Inv outside signal (push-Inv (pushing task) outside task inv)

count-create_threads : (f : Pc → ℕ) (n : ℕ) → f top ≡ 0 → count f (create_threads n) ≡ 0
count-create_threads f zero h = refl
count-create_threads f (suc n) h = omega (arith, h, count-create_threads f n h)

length-create_threads : (n : ℕ) → length (create_threads n) ≡ n
length-create_threads zero = refl
length-create_threads (suc n) = omega (arith, length-create_threads n)

initial-Inv :
    (min_threads max_threads : ℕ)
    → 1 ≤ min_threads
    → min_threads ≤ max_threads
    → Inv min_threads max_threads (initial min_threads)
unfolding initial
initial-Inv min_threads max_threads one bound =
    let size = length-create_threads (min_threads - 1) in
    record {
      counted = omega (arith, count-create_threads is_busy (min_threads - 1) refl);
      owned = omega (arith, count-create_threads has_lock (min_threads - 1) refl);
      spare = omega (arith, size, count-create_threads is_dying (min_threads - 1) refl);
      limited = omega (arith, size);
      in_order = refl;
    }

-- In every state that a pool comes to, in any order of its threads, if it is made with one thread at least and at
-- most `max_threads`: `t_busy_` is the number of threads that perform a task, `q_lock_` has one owner
-- just while it is locked, there are `min_threads` threads at least besides those that are about to end, at most
-- `max_threads` in all, and the tasks taken, with those in the queue, are those put into it, in order.
pub Reach-Inv :
    {min_threads max_threads : ℕ} {s : State}
    → 1 ≤ min_threads
    → min_threads ≤ max_threads
    → Reach min_threads max_threads s
    → Inv min_threads max_threads s
Reach-Inv {min_threads} {max_threads} one bound start =
    initial-Inv min_threads max_threads one bound
Reach-Inv one bound (later r step) = Step-Inv step (Reach-Inv one bound r)
