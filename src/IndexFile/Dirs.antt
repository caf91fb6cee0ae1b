-- ===== src/IndexFile/Dirs.antt =====
-- `check_add_directory` of src/directory.cpp, which numbers the directories, and the vector of `write_dir_index`,
-- which puts them in the order of their numbers.
use swishxx.Common.Places.{get_elem?-bound}
use swishxx.Common.{
  ℕ, zero, suc, ◌<◌, ◌≡◌, ◌≢◌, refl, sym, ap, ◌∙◌, arith, Bool, true, false, ◌||◌, List, [], ◌∷◌,
  map, Option, some, ◌==◌, ==_iff, Bool-cases, ◌⊎◌, inl, inr, length, get_elem?, All,
}
use swishxx.IndexFile.Write.{DirSet, set_at, nulls, fill_dirs}

abbrev pub has_number : ℕ → DirSet → Bool
has_number i [] = false
has_number i (d ∷ dirs) = d.1 == i || has_number i dirs

-- The directories, in whatever order, with the numbers of `names`.
pub record IsDirSet (dirs : DirSet) (names : List (List ℕ)) : Type 0 where
  pub all_counted : length dirs ≡ length names
  pub all_named : All (λ d. get_elem? names d.1 ≡ some d.0) dirs
  pub all_there : (i : ℕ) → i < length names → has_number i dirs ≡ true

-- One slot is set, and the others stay.
set_at-slots :
    {A : Type 0} (xs : List A) (i : ℕ) (a : A)
    → i < length xs
    → (ys : List A) × (set_at xs i a ≡ some ys)
      × (length ys ≡ length xs)
      × (get_elem? ys i ≡ some a)
      × ((j : ℕ) → i ≢ j → get_elem? ys j ≡ get_elem? xs j)
unfolding set_at
set_at-slots [] i a h = absurd (omega arith)
set_at-slots {A} (x ∷ xs) zero a h = (a ∷ xs, refl, refl, refl, λ j other. later j other)
  where
    later : (j : ℕ) → 0 ≢ j → get_elem? (a ∷ xs) j ≡ get_elem? (x ∷ xs) j
    later zero other = absurd (other refl)
    later (suc j) other = refl
set_at-slots {A} (x ∷ xs) (suc i) a h =
    let (ys, e, n, here, others) = set_at-slots xs i a (omega arith) in
    (x ∷ ys, rw e refl, ap suc n, here, later ys others)
  where
    later :
        (ys : List A)
        → ((j : ℕ) → i ≢ j → get_elem? ys j ≡ get_elem? xs j)
        → (j : ℕ) → suc i ≢ j
        → get_elem? (x ∷ ys) j ≡ get_elem? (x ∷ xs) j
    later ys others zero other = refl
    later ys others (suc j) other = others j (λ e. other (ap suc e))

-- A slot holds the directory of its number.
abbrev Holds : List (List ℕ) → List (Option (List ℕ)) → ℕ → Type 0
Holds names list j = get_elem? list j ≡ some (get_elem? names j)

-- The slots of the numbers that there are are filled, and none is spoilt.
fill_dirs-Holds :
    (names : List (List ℕ)) (dirs : DirSet) (list : List (Option (List ℕ)))
    → length list ≡ length names
    → All (λ d. get_elem? names d.1 ≡ some d.0) dirs
    → (out : List (Option (List ℕ))) × (fill_dirs dirs list ≡ some out)
      × (length out ≡ length list)
      × ((j : ℕ) → (has_number j dirs ≡ true) ⊎ Holds names list j → Holds names out j)
unfolding fill_dirs
fill_dirs-Holds names [] list n h = (list, refl, refl, λ j k. kept j k)
  where
    kept : (j : ℕ) → (false ≡ true) ⊎ Holds names list j → Holds names list j
    kept j (inl never) = cc never
    kept j (inr k) = k
fill_dirs-Holds names (d ∷ dirs) list n (own, hs) =
    let (ys, e, m, here, others) =
      set_at-slots list d.1 (some d.0) (omega (arith, n, get_elem?-bound names d.1 d.0 own)) in
    let (out, e', m', filled) = fill_dirs-Holds names dirs ys (m ∙ n) hs in
    (out, rw e e', m' ∙ m, λ j k. filled j (next ys here others j k))
  where
    next :
        (ys : List (Option (List ℕ)))
        → get_elem? ys d.1 ≡ some (some d.0)
        → ((j : ℕ) → d.1 ≢ j → get_elem? ys j ≡ get_elem? list j)
        → (j : ℕ) → ((d.1 == j || has_number j dirs) ≡ true) ⊎ Holds names list j
        → (has_number j dirs ≡ true) ⊎ Holds names ys j
    next ys here others j k = elim (Bool-cases (d.1 == j)) [
      | inl same ↦ inr (rw (← (==_iff d.1 j).0 same) (here ∙ ap some (sym own)))
      | inr other ↦ elim k [
        | inl there ↦ inl (rw other at there)
        | inr held ↦ inr (others j (λ e. ground (arith, other)) ∙ held)
      ]
    ]

-- A list is what stands in its slots.
all_held :
    (names : List (List ℕ)) (out : List (Option (List ℕ)))
    → length out ≡ length names
    → ((j : ℕ) → j < length names → Holds names out j)
    → out ≡ map some names
all_held [] [] n h = refl
all_held [] (x ∷ out) n h = absurd (omega arith)
all_held (name ∷ names) [] n h = absurd (omega arith)
all_held (name ∷ names) (x ∷ out) n h =
    let first : x ≡ some name = cc (h 0 (omega arith)) in
    rw (first, all_held names out (omega arith) (λ j below. h (suc j) (omega arith))) refl

length-nulls : (n : ℕ) → length (nulls n) ≡ n
unfolding nulls
length-nulls zero = refl
length-nulls (suc n) = ap suc (length-nulls n)

-- The directories come in the order of their numbers, with no slot left empty.
pub fill_dirs-IsDirSet :
    (dirs : DirSet) (names : List (List ℕ))
    → IsDirSet dirs names
    → fill_dirs dirs (nulls (length dirs)) ≡ some (map some names)
fill_dirs-IsDirSet dirs names h =
    let (out, e, n, filled) =
      fill_dirs-Holds names dirs (nulls (length dirs)) (length-nulls (length dirs) ∙ h.all_counted)
        h.all_named in
    e
    ∙ ap some (
        all_held names out (n ∙ length-nulls (length dirs) ∙ h.all_counted)
          (λ j below. filled j (inl (h.all_there j below))))
