-- ===== src/IndexFile/Numbers.antt =====
-- The numbers of directories: `check_add_directory` keeps those that there are, and numbers a new one.
use swishxx.Common.Places.{get_elem?-bound, get_elem?-append_old, get_elem?-append_new, All-imp}
use swishxx.Common.{
  ℕ, suc, ◌%◌, ◌^◌, ◌<◌, ◌≡◌, refl, sym, ap, arith, Bool, true, false, ◌||◌, List, [], ◌∷◌, ◌++◌,
  none, some, ◌==◌, Bool-cases, Option-cases, inl, inr, length, get_elem?, All, append_assoc,
  append-nil, length-snoc, length-append,
}
use mathlib.Core.Path.{subst}
use swishxx.Stem.{list_eq}
use swishxx.Merge.Strings.{str_less, str_less_total, list_eq_iff}
use swishxx.IndexFile.Write.{DirSet}
use swishxx.IndexFile.Dirs.{has_number, IsDirSet}
use swishxx.IndexFile.Load.{lookup, store, check_add_directory, add_dirs}

-- What is found has the key.
lookup-found :
    (P : List ℕ × ℕ → Type 0) (key : List ℕ) (ds : DirSet) (i : ℕ)
    → lookup key ds ≡ some i
    → All P ds
    → P (key, i)
unfolding lookup
lookup-found P key [] i e h = cc e
lookup-found P key ((k, n) ∷ ds) i e (own, hs) = elim (Bool-cases (list_eq key k)) [
  | inl y ↦
      let a : key ≡ k = (list_eq_iff key k).0 y in let b : i ≡ n = cc (rw y at e) in rw (a, b) own
  | inr o ↦ lookup-found P key ds i (rw o at e) hs
]

or_swap : (a b c : Bool) → (a || (b || c)) ≡ (b || (a || c))
or_swap true true c = refl
or_swap true false c = refl
or_swap false b c = refl

-- A key that is not there is inserted, wherever it belongs.
module _ (key : List ℕ) (v : ℕ) where
  not_same :
      (d : List ℕ × ℕ) (ds : DirSet)
      → lookup key (d ∷ ds) ≡ none
      → (list_eq key d.0 ≡ false) × (lookup key ds ≡ none)
  unfolding lookup
  not_same d ds e = elim (Bool-cases (list_eq key d.0)) [
    | inl y ↦ cc (rw y at e)
    | inr n ↦ (n, rw n at e)
  ]

  ordered :
      (d : List ℕ × ℕ)
      → list_eq key d.0 ≡ false
      → str_less key d.0 ≡ false
      → str_less d.0 key ≡ true
  ordered d n l = elim (Bool-cases (str_less d.0 key)) [
    | inl y ↦ y
    | inr m ↦ cc ((list_eq_iff key d.0).1 (str_less_total key d.0 l m), n)
  ]

  pub store-All :
      (P : List ℕ × ℕ → Type 0) (ds : DirSet)
      → lookup key ds ≡ none
      → P (key, v)
      → All P ds
      → All P (store key v ds)
  unfolding store
  store-All P [] e p h = (p, tt)
  store-All P (d ∷ ds) e p (own, hs) =
      let (n, e') = not_same d ds e in
      elim (Bool-cases (str_less key d.0)) [
        | inl y ↦ rw y (p, (own, hs))
        | inr l ↦ rw (l, ordered d n l) (own, store-All P ds e' p hs)
      ]

  store-numbers :
      (j : ℕ) (ds : DirSet)
      → lookup key ds ≡ none
      → has_number j (store key v ds) ≡ (v == j || has_number j ds)
  unfolding store
  store-numbers j [] e = refl
  store-numbers j (d ∷ ds) e =
      let (n, e') = not_same d ds e in
      elim (Bool-cases (str_less key d.0)) [
        | inl y ↦ rw y refl
        | inr l ↦
            rw (l, ordered d n l)
              (rw (store-numbers j ds e') (or_swap (d.1 == j) (v == j) (has_number j ds)))
      ]

  length-store : (ds : DirSet) → lookup key ds ≡ none → length (store key v ds) ≡ suc (length ds)
  unfolding store
  length-store [] e = refl
  length-store (d ∷ ds) e =
      let (n, e') = not_same d ds e in
      elim (Bool-cases (str_less key d.0)) [
        | inl y ↦ rw y refl
        | inr l ↦ rw (l, ordered d n l) (ap suc (length-store ds e'))
      ]

-- A directory that is not there yet gets the next number.
pub new_dir-IsDirSet :
    (dir : List ℕ) (dirs : DirSet) (names : List (List ℕ))
    → IsDirSet dirs names
    → lookup dir dirs ≡ none
    → IsDirSet (store dir (length dirs) dirs) (names ++ (dir ∷ []))
new_dir-IsDirSet dir dirs names h e = record {
  all_counted =
      omega (arith, length-store dir (length dirs) dirs e, h.all_counted, length-snoc names dir);
  all_named =
      store-All dir (length dirs) _ dirs e (rw h.all_counted (get_elem?-append_new names [] dir))
        (All-imp _ _ (λ d. get_elem?-append_old names (dir ∷ []) d.1 d.0) dirs h.all_named);
  all_there = λ i below. rw (store-numbers dir (length dirs) i dirs e) (there i below);
}
  where
    there :
        (i : ℕ) → i < length (names ++ (dir ∷ [])) → (length dirs == i || has_number i dirs) ≡ true
    there i below = elim (Bool-cases (length dirs == i)) [
      | inl y ↦ rw y refl
      | inr o ↦
          rw o (h.all_there i (ground (arith, o, h.all_counted, length-snoc names dir, below)))
    ]

check_add_directory-known :
    (dir : List ℕ) (dirs : DirSet) (i : ℕ)
    → lookup dir dirs ≡ some i
    → check_add_directory dir dirs ≡ (i, dirs)
unfolding check_add_directory
check_add_directory-known dir dirs i e = rw (e, check_add_directory) refl

check_add_directory-new :
    (dir : List ℕ) (dirs : DirSet)
    → length dirs < 2 ^ 31
    → lookup dir dirs ≡ none
    → check_add_directory dir dirs ≡ (length dirs, store dir (length dirs) dirs)
unfolding check_add_directory
check_add_directory-new dir dirs small e =
    let fits : length dirs % 2 ^ 32 ≡ length dirs = omega arith in
    rw (e, check_add_directory) (rw fits refl)

-- With fewer than 2 ^ 31 directories, `check_add_directory` returns the number of its directory, an `int` that is not
-- negative, in a set whose directories are numbered from 0 on, without a gap and each with its name, as they were
-- before; and each directory that was there keeps its number.
pub check_add_directory-IsDirSet :
    (dir : List ℕ) (dirs : DirSet) (names : List (List ℕ))
    → IsDirSet dirs names
    → length dirs < 2 ^ 31
    → (names' : List (List ℕ)) × (IsDirSet (check_add_directory dir dirs).1 names')
      × (get_elem? names' (check_add_directory dir dirs).0 ≡ some dir)
      × ((check_add_directory dir dirs).0 < 2 ^ 31)
      × ((i : ℕ) (name : List ℕ) → get_elem? names i ≡ some name → get_elem? names' i ≡ some name)
check_add_directory-IsDirSet dir dirs names h small = elim (Option-cases (lookup dir dirs)) [
  | inl e ↦ rw (check_add_directory-new dir dirs small e) (
    names ++ (dir ∷ []),
    new_dir-IsDirSet dir dirs names h e,
    rw h.all_counted (get_elem?-append_new names [] dir),
    small,
    λ i name. get_elem?-append_old names (dir ∷ []) i name,
  )
  | inr (i, e) ↦
      rw (check_add_directory-known dir dirs i e)
        (names, h, found i e, nonneg i e, λ i name old. old)
]
  where
    found : (i : ℕ) → lookup dir dirs ≡ some i → get_elem? names i ≡ some dir
    found i e = lookup-found _ dir dirs i e h.all_named

    nonneg : (i : ℕ) → lookup dir dirs ≡ some i → i < 2 ^ 31
    nonneg i e = omega (arith, get_elem?-bound names i dir (found i e), h.all_counted, small)

-- No name stands twice.
abbrev pub AreUnlike : List (List ℕ) → Type 0
AreUnlike names =
    (i j : ℕ) (name : List ℕ)
    → get_elem? names i ≡ some name
    → get_elem? names j ≡ some name
    → i ≡ j

-- A name that comes later is not there yet.
not_yet :
    (dir : List ℕ) (dirs : DirSet) (seen later : List (List ℕ))
    → IsDirSet dirs seen
    → AreUnlike (seen ++ (dir ∷ later))
    → lookup dir dirs ≡ none
not_yet dir dirs seen later h unlike = elim (Option-cases (lookup dir dirs)) [
  | inl e ↦ e
  | inr (i, e) ↦
      let found : get_elem? seen i ≡ some dir = lookup-found _ dir dirs i e h.all_named in
      let below = get_elem?-bound seen i dir found in
      let same =
        unlike i (length seen) dir (get_elem?-append_old seen (dir ∷ later) i dir found)
          (get_elem?-append_new seen later dir) in
      absurd (omega arith)
]

-- Directories that are added one after the other are numbered in that order.
pub add_dirs-IsDirSet :
    (later : List (List ℕ)) (dirs : DirSet) (seen : List (List ℕ))
    → IsDirSet dirs seen
    → AreUnlike (seen ++ later)
    → length (seen ++ later) < 2 ^ 31
    → IsDirSet (add_dirs later dirs) (seen ++ later)
unfolding add_dirs
add_dirs-IsDirSet [] dirs seen h unlike small = rw (append-nil seen) h
add_dirs-IsDirSet (d ∷ later) dirs seen h unlike small =
    let e = not_yet d dirs seen later h unlike in
    let few : length dirs < 2 ^ 31 =
      omega (arith, h.all_counted, small, length-append seen (d ∷ later)) in
    let moved : seen ++ (d ∷ later) ≡ (seen ++ (d ∷ [])) ++ later =
      sym (append_assoc seen (d ∷ []) later) in
    rw (check_add_directory-new d dirs few e, moved)
      (add_dirs-IsDirSet later (store d (length dirs) dirs) (seen ++ (d ∷ []))
        (new_dir-IsDirSet d dirs seen h e) (subst AreUnlike moved unlike) (rw moved at small))
