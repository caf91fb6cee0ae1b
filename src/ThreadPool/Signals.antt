-- ===== src/ThreadPool/Signals.antt =====
-- The signals of `q_not_empty_` are enough: no wake-up is lost.
use swishxx.Common.{
  ℕ, ◌≤◌, ◌≡◌, refl, ap, ◌∙◌, arith, true, false, List, [], ◌∷◌, ◌++◌, length, All, ◌⊎◌, inl, inr,
}
use swishxx.ThreadPool.Moves.{has_lock, count, bit, count-append, count-append_nil}
use swishxx.ThreadPool.Invariant.{Inv, Reach-Inv}
use swishxx.ThreadPool.{
  Pc, top, waiting, timed_waiting, dying, woken, testing, taken, busy, Pool, State, Move,
  lock_queue, wait_task, wait_a_while, give_up, wake_up, pop_task, start_task, end_task, Turn,
  queue_task, create_thread, wait_idle, refuse, new_task_turn, created, is_waiting, ThreadStep,
  thread_moves, thread_ends, Signal, unblocks, unheard, Step, thread_steps, time_out, spurious_wake,
  new_task, client_spurious, client_wakes, push_task, initial, Reach, start, later,
}

-- The threads that come to the queue again with no signal, time-out or spurious wake-up.
abbrev pub is_awake : Pc → ℕ
is_awake waiting = 0
is_awake timed_waiting = 0
is_awake dying = 0
is_awake _ = 1

-- With a task in the queue, some thread is awake.
abbrev pub IsHeard : State → Type 0
IsHeard s = 1 ≤ length s.pool.queue → 1 ≤ count is_awake s.threads

-- A thread that moves is awake behind it, or has found the queue empty.
Move-awake :
    {min_threads n : ℕ} {p q : Pool} {pc pc' : Pc}
    → Move min_threads n p pc pc' q
    → (is_awake pc' ≡ 1) ⊎ (q.queue ≡ [])
Move-awake (lock_queue free) = inl refl
Move-awake (wait_task e f) = inr e
Move-awake (wait_a_while e f) = inr e
Move-awake (give_up e f) = inr e
Move-awake (wake_up free) = inl refl
Move-awake (pop_task e) = inl refl
Move-awake start_task = inl refl
Move-awake end_task = inl refl

one_awake :
    (front : List Pc) (pc : Pc) (back : List Pc)
    → is_awake pc ≡ 1
    → 1 ≤ count is_awake (front ++ (pc ∷ back))
one_awake front pc back a = omega (arith, a, count-append is_awake front pc back)

ThreadStep-IsHeard :
    {min_threads : ℕ} {s t : State} → ThreadStep min_threads s t → IsHeard s → IsHeard t
ThreadStep-IsHeard (thread_moves {q = q} {pc' = pc'} front back move) h l = elim (Move-awake move) [
  | inl a ↦ one_awake front pc' back a
  | inr e ↦ absurd (omega (arith, l, ap length e))
]
ThreadStep-IsHeard (thread_ends front back) h l =
    omega (arith, h l, count-append is_awake front dying back, count-append_nil is_awake front back)

-- A thread that does not wait and has no lock is awake.
free_awake : (pc : Pc) → is_waiting pc ≡ false → has_lock pc ≡ 0 → is_awake pc ≡ 1
free_awake top w h = refl
free_awake waiting w h = cc w
free_awake timed_waiting w h = cc w
free_awake dying w h = absurd (omega arith)
free_awake (woken b) w h = refl
free_awake (testing b) w h = refl
free_awake (taken t) w h = refl
free_awake (busy t) w h = refl

-- So are all threads, if the signal is not heard and `q_lock_` is free.
all_awake :
    (threads : List Pc)
    → 1 ≤ length threads
    → count has_lock threads ≡ 0
    → All (λ pc. is_waiting pc ≡ false) threads
    → 1 ≤ count is_awake threads
all_awake [] l h none = absurd (omega arith)
all_awake (pc ∷ threads) l h none = omega (arith, free_awake pc none.0 (omega (arith, h)))

Signal-awake :
    {threads threads' : List Pc}
    → Signal threads threads'
    → 1 ≤ length threads
    → count has_lock threads ≡ 0
    → 1 ≤ count is_awake threads'
Signal-awake (unblocks pc front back w) l h = one_awake front (woken false) back refl
Signal-awake (unheard {threads} none) l h = all_awake threads l h none

created-awake :
    (turn : Turn) (threads : List Pc)
    → 1 ≤ count is_awake threads
    → 1 ≤ count is_awake (created turn threads)
created-awake queue_task threads h = h
created-awake create_thread threads h = omega (arith, h)
created-awake wait_idle threads h = h
created-awake refuse threads h = h

Step-IsHeard :
    {min_threads max_threads : ℕ} {s t : State}
    → 1 ≤ min_threads
    → Inv min_threads max_threads s
    → Step min_threads max_threads s t
    → IsHeard s
    → IsHeard t
Step-IsHeard one inv (thread_steps st) h l = ThreadStep-IsHeard st h l
Step-IsHeard one inv (time_out front back) h l = one_awake front (woken true) back refl
Step-IsHeard one inv (spurious_wake pc front back w) h l = one_awake front (woken false) back refl
Step-IsHeard {max_threads} one inv (new_task {p} {threads} task block) h l =
    created-awake (new_task_turn max_threads (length threads) p.t_busy block) threads (h l)
Step-IsHeard one inv client_spurious h l = h l
Step-IsHeard one inv client_wakes h l = h l
Step-IsHeard one inv (push_task free signal) h l =
    Signal-awake signal (omega (arith, one, inv.spare)) (inv.owned ∙ ap bit free)

-- In every state that a pool with one thread at least comes to, some thread is awake if a task is in the queue.
pub Reach-IsHeard :
    {min_threads max_threads : ℕ} {s : State}
    → 1 ≤ min_threads
    → min_threads ≤ max_threads
    → Reach min_threads max_threads s
    → IsHeard s
unfolding initial
Reach-IsHeard one bound start l = absurd (omega arith)
Reach-IsHeard one bound (later r step) l =
    Step-IsHeard one (Reach-Inv one bound r) step (Reach-IsHeard one bound r) l
