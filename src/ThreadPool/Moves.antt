-- ===== src/ThreadPool/Moves.antt =====
-- The threads that are counted, and what one step of a thread keeps.
use swishxx.Common.{
  ℕ, ◌+◌, ◌≤◌, ◌≡◌, refl, sym, ap, ◌∙◌, arith, Bool, true, false, List, [], ◌∷◌, ◌++◌, append_assoc,
}
use swishxx.ThreadPool.{
  Pc, top, waiting, timed_waiting, dying, woken, testing, taken, busy, Pool, Move, lock_queue,
  wait_task, wait_a_while, give_up, wake_up, pop_task, start_task, end_task,
}

-- The threads with a task that is counted, those with `q_lock_`, and those about to end.
abbrev pub is_busy : Pc → ℕ
is_busy (busy task) = 1
is_busy _ = 0

abbrev pub has_lock : Pc → ℕ
has_lock (testing timed_out) = 1
has_lock dying = 1
has_lock _ = 0

abbrev pub is_dying : Pc → ℕ
is_dying dying = 1
is_dying _ = 0

abbrev pub count : (Pc → ℕ) → List Pc → ℕ
count f [] = 0
count f (pc ∷ threads) = f pc + count f threads

abbrev pub bit : Bool → ℕ
bit true = 1
bit false = 0

pub count-append :
    (f : Pc → ℕ) (front : List Pc) (pc : Pc) (back : List Pc)
    → count f (front ++ (pc ∷ back)) ≡ f pc + (count f front + count f back)
count-append f [] pc back = omega arith
count-append f (q ∷ front) pc back = omega (arith, count-append f front pc back)

pub count-append_nil :
    (f : Pc → ℕ) (front back : List Pc) → count f (front ++ back) ≡ count f front + count f back
count-append_nil f [] back = omega arith
count-append_nil f (q ∷ front) back = omega (arith, count-append_nil f front back)

pub count_le :
    (f g : Pc → ℕ)
    → ((pc : Pc) → f pc ≤ g pc)
    → (threads : List Pc) → count f threads ≤ count g threads
count_le f g h [] = omega arith
count_le f g h (pc ∷ threads) = omega (arith, h pc, count_le f g h threads)

pub dying_has_lock : (pc : Pc) → is_dying pc ≤ has_lock pc
dying_has_lock top = omega arith
dying_has_lock waiting = omega arith
dying_has_lock timed_waiting = omega arith
dying_has_lock dying = omega arith
dying_has_lock (woken b) = omega arith
dying_has_lock (testing b) = omega arith
dying_has_lock (taken t) = omega arith
dying_has_lock (busy t) = omega arith

pub bit-le : (b : Bool) → bit b ≤ 1
bit-le true = omega arith
bit-le false = omega arith

-- What one step of a thread keeps, if what it counts for is there.
pub record Kept (min_threads n : ℕ) (p : Pool) (pc pc' : Pc) (q : Pool) : Type 0 where
  pub tasks : p.t_busy + is_busy pc' ≡ q.t_busy + is_busy pc
  pub lock : bit p.q_locked + has_lock pc' ≡ bit q.q_locked + has_lock pc
  pub order : q.popped ++ q.queue ≡ p.popped ++ p.queue
  pub same : q.pushed ≡ p.pushed
  pub need : min_threads + is_dying pc' ≤ n

held : (b : Bool) → 1 ≤ bit b → bit b + 0 ≡ 0 + 1
held true h = refl
held false h = absurd (omega arith)

pub Move-Kept :
    {min_threads n : ℕ} {p q : Pool} {pc pc' : Pc}
    → Move min_threads n p pc pc' q
    → is_busy pc ≤ p.t_busy
    → has_lock pc ≤ bit p.q_locked
    → min_threads ≤ n
    → Kept min_threads n p pc pc' q
Move-Kept {p} (lock_queue free) b l m = record {
  tasks = refl;
  lock = rw free refl;
  order = refl;
  same = refl;
  need = omega arith;
}
Move-Kept {p} (wait_task e f) b l m = record {
  tasks = refl;
  lock = held p.q_locked l;
  order = refl;
  same = refl;
  need = omega arith;
}
Move-Kept {p} (wait_a_while e f) b l m = record {
  tasks = refl;
  lock = held p.q_locked l;
  order = refl;
  same = refl;
  need = omega arith;
}
Move-Kept {p} (give_up e f) b l m = record {
  tasks = refl;
  lock = refl;
  order = refl;
  same = refl;
  need = omega arith;
}
Move-Kept {p} (wake_up free) b l m = record {
  tasks = refl;
  lock = rw free refl;
  order = refl;
  same = refl;
  need = omega arith;
}
Move-Kept {p} (pop_task {task = task} {queue = queue} e) b l m = record {
  tasks = refl;
  lock = held p.q_locked l;
  order = append_assoc p.popped (task ∷ []) queue ∙ ap (λ x. p.popped ++ x) (sym e);
  same = refl;
  need = omega arith;
}
Move-Kept {p} start_task b l m = record {
  tasks = omega arith;
  lock = refl;
  order = refl;
  same = refl;
  need = omega arith;
}
Move-Kept {p} end_task b l m = record {
  tasks = omega arith;
  lock = refl;
  order = refl;
  same = refl;
  need = omega arith;
}
