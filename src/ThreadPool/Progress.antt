-- ===== src/ThreadPool/Progress.antt =====
-- No task is stuck in the queue.
use swishxx.Common.{
  ℕ, ◌+◌, ◌-◌, ◌≤◌, ◌≡◌, refl, ap, ◌∙◌, arith, Bool, true, false, List, [], ◌∷◌, ◌++◌, length,
  Bool-cases, inl, inr, append_assoc,
}
use mathlib.Core.Path.{subst}
use swishxx.ThreadPool.Moves.{has_lock, count, bit, count-append_nil}
use swishxx.ThreadPool.Invariant.{Reach-Inv}
use swishxx.ThreadPool.Signals.{is_awake, Reach-IsHeard}
use swishxx.ThreadPool.{
  Pc, top, dying, woken, testing, taken, busy, Client, Pool, State, set_q_locked, set_t_busy,
  lock_queue, wake_up, pop_task, start_task, end_task, ThreadStep, thread_moves, thread_ends, Reach,
}

-- Any number of steps of the threads from a state: no wait ends but by a signal that was sent before, and the client
-- does nothing.
pub data ThreadSteps (min_threads : ℕ) (s : State) : State → Type 0 where
  here : ThreadSteps min_threads s s
  next :
      {t u : State}
      → ThreadSteps min_threads s t
      → ThreadStep min_threads t u
      → ThreadSteps min_threads s u

-- Some steps of the threads take just this task.
abbrev pub CanTake : ℕ → State → ℕ → Type 0
CanTake min_threads s task =
    (t : State) × (ThreadSteps min_threads s t × (t.pool.popped ≡ s.pool.popped ++ (task ∷ [])))

module _ {min_threads : ℕ} where
  chain :
      {s t u : State}
      → ThreadSteps min_threads s t
      → ThreadSteps min_threads t u
      → ThreadSteps min_threads s u
  chain a here = a
  chain a (next b st) = next (chain a b) st

  -- A first step that takes nothing.
  after :
      {s t : State} (task : ℕ)
      → ThreadStep min_threads s t
      → t.pool.popped ≡ s.pool.popped
      → CanTake min_threads t task
      → CanTake min_threads s task
  after task st e (u, (steps, p)) =
      (u, (chain (next here st) steps, p ∙ ap (λ x. x ++ (task ∷ [])) e))

  -- The thread comes to the test of the queue and takes it.
  module _ (front back : List Pc) (c : Client) (task : ℕ) (queue : List ℕ) where
    owner_takes :
        (p : Pool) (b : Bool)
        → p.queue ≡ task ∷ queue
        → CanTake min_threads
            (record { pool = p; threads = front ++ (testing b ∷ back); client = c })
            task
    owner_takes p b e = (_, (next here (thread_moves front back (pop_task e)), refl))

    woken_takes :
        (p : Pool) (b : Bool)
        → p.q_locked ≡ false
        → p.queue ≡ task ∷ queue
        → CanTake min_threads
            (record { pool = p; threads = front ++ (woken b ∷ back); client = c })
            task
    woken_takes p b free e =
        after task (thread_moves front back (wake_up free)) refl
          (owner_takes (set_q_locked true p) b e)

    top_takes :
        (p : Pool)
        → p.q_locked ≡ false
        → p.queue ≡ task ∷ queue
        → CanTake min_threads
            (record { pool = p; threads = front ++ (top ∷ back); client = c })
            task
    top_takes p free e =
        after task (thread_moves front back (lock_queue free)) refl
          (owner_takes (set_q_locked true p) false e)

    busy_takes :
        (p : Pool) (other : ℕ)
        → p.q_locked ≡ false
        → p.queue ≡ task ∷ queue
        → CanTake min_threads
            (record { pool = p; threads = front ++ (busy other ∷ back); client = c })
            task
    busy_takes p other free e =
        after task (thread_moves front back end_task) refl
          (top_takes (set_t_busy (p.t_busy - 1) p) free e)

    taken_takes :
        (p : Pool) (other : ℕ)
        → p.q_locked ≡ false
        → p.queue ≡ task ∷ queue
        → CanTake min_threads
            (record { pool = p; threads = front ++ (taken other ∷ back); client = c })
            task
    taken_takes p other free e =
        after task (thread_moves front back start_task) refl
          (busy_takes (set_t_busy (p.t_busy + 1) p) other free e)

  -- The same state, with the thread among those in front.
  shift :
      (p : Pool) (c : Client) (task : ℕ) (front : List Pc) (pc : Pc) (back : List Pc)
      → CanTake min_threads
          (record { pool = p; threads = (front ++ (pc ∷ [])) ++ back; client = c })
          task
      → CanTake min_threads (record { pool = p; threads = front ++ (pc ∷ back); client = c }) task
  shift p c task front pc back h =
      subst (λ x. CanTake min_threads (record { pool = p; threads = x; client = c }) task)
        (append_assoc front (pc ∷ []) back) h

  module _ (c : Client) (task : ℕ) (queue : List ℕ) where
    -- If no thread has the lock, the first that is awake takes it.
    free_takes :
        (p : Pool) (front threads : List Pc)
        → 1 ≤ count is_awake threads
        → count has_lock threads ≡ 0
        → p.q_locked ≡ false
        → p.queue ≡ task ∷ queue
        → CanTake min_threads (record { pool = p; threads = front ++ threads; client = c }) task
    free_takes p front [] a h free e = absurd (omega arith)
    free_takes p front (top ∷ back) a h free e = top_takes front back c task queue p free e
    free_takes p front (woken b ∷ back) a h free e = woken_takes front back c task queue p b free e
    free_takes p front (taken t ∷ back) a h free e = taken_takes front back c task queue p t free e
    free_takes p front (busy t ∷ back) a h free e = busy_takes front back c task queue p t free e
    free_takes p front (testing b ∷ back) a h free e = absurd (omega arith)
    free_takes p front (dying ∷ back) a h free e = absurd (omega arith)
    free_takes p front (pc ∷ back) a h free e =
        shift p c task front pc back
          (free_takes p (front ++ (pc ∷ [])) back (omega arith) (omega arith) free e)

    -- The thread that has the lock takes it, or ends.
    owned_takes :
        (p : Pool) (front threads : List Pc)
        → count has_lock front ≡ 0
        → count has_lock threads ≡ 1
        → 1 ≤ count is_awake front + count is_awake threads
        → p.queue ≡ task ∷ queue
        → CanTake min_threads (record { pool = p; threads = front ++ threads; client = c }) task
    owned_takes p front [] f h a e = absurd (omega arith)
    owned_takes p front (testing b ∷ back) f h a e = owner_takes front back c task queue p b e
    owned_takes p front (dying ∷ back) f h a e = after task (thread_ends front back) refl (
        free_takes (set_q_locked false p) [] (front ++ back)
          (omega (arith, count-append_nil is_awake front back))
          (omega (arith, count-append_nil has_lock front back)) refl e)
    owned_takes p front (pc ∷ back) f h a e =
        let locks = count-append_nil has_lock front (pc ∷ []) in
        let awake = count-append_nil is_awake front (pc ∷ []) in
        shift p c task front pc back (
          owned_takes p (front ++ (pc ∷ [])) back (omega (arith, locks)) (omega arith)
            (omega (arith, awake)) e)

-- In every state that a pool with one thread at least comes to, with tasks in the queue, some steps of its threads
-- alone take just the first of them: no thread has to be woken by a signal that is still to come, by a
-- time-out or by chance, so `q_lock_` is not stuck and no signal of `q_not_empty_` was lost.
pub Reach-CanTake :
    {min_threads max_threads : ℕ} {s : State} (task : ℕ) (queue : List ℕ)
    → 1 ≤ min_threads
    → min_threads ≤ max_threads
    → Reach min_threads max_threads s
    → s.pool.queue ≡ task ∷ queue
    → CanTake min_threads s task
Reach-CanTake {s} task queue one bound r e =
    let inv = Reach-Inv one bound r in
    let awake = Reach-IsHeard one bound r (omega (arith, ap length e)) in
    elim (Bool-cases s.pool.q_locked) [
      | inl y ↦
          owned_takes s.client task queue s.pool [] s.threads refl (inv.owned ∙ ap bit y)
            (omega (arith, awake)) e
      | inr n ↦ free_takes s.client task queue s.pool [] s.threads awake (inv.owned ∙ ap bit n) n e
    ]
