-- ===== src/Tests/ThreadPool.antt =====
-- A pool of one thread and at most two: the thread waits, and a task is queued, whose signal wakes it.
use swishxx.Common.{refl, arith, [], ◌∷◌, true, false}
use swishxx.ThreadPool.{
  State, outside, woken, lock_queue, wait_task, thread_moves, thread_steps, unblocks, waiting,
  Reach, start, later, new_task, push_task, initial, new_task_turn,
}
use swishxx.ThreadPool.Invariant.{Inv, Reach-Inv}
use swishxx.ThreadPool.Progress.{CanTake, Reach-CanTake}

abbrev queued : State
queued = record {
  pool = record { q_locked = false; queue = 7 ∷ []; t_busy = 0; pushed = 7 ∷ []; popped = [] };
  threads = woken false ∷ [];
  client = outside;
}

queued-Reach : Reach 1 2 queued
unfolding initial new_task_turn
queued-Reach =
    let locked = later start (thread_steps (thread_moves [] [] (lock_queue refl))) in
    let idle = later locked (thread_steps (thread_moves [] [] (wait_task refl (omega arith)))) in
    later (later idle (new_task 7 true)) (push_task refl (unblocks waiting [] [] refl))

Reach-Inv_example : Inv 1 2 queued
Reach-Inv_example = Reach-Inv (omega arith) (omega arith) queued-Reach

Reach-CanTake_example : CanTake 1 queued 7
Reach-CanTake_example = Reach-CanTake 7 [] (omega arith) (omega arith) queued-Reach refl
