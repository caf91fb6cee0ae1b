-- ===== src/IndexFile/Found.antt =====
-- What the look-ups in a mapped index find, once it holds entries in order.
use swishxx.Common.Places.{drop_all, take-nil, take-drop_first, get_elem?-some}
use swishxx.Common.{
  ℕ, ◌-◌, ◌<◌, ◌≤◌, ◌≡◌, refl, sym, ap, ◌∙◌, arith, Bool, true, false, not, List, [], ◌∷◌, map,
  Option, some, ◌==◌, ltb, Bool-cases, Option-cases, ◌⊎◌, inl, inr, length, get_elem?, take, drop,
  All,
}
use swishxx.Posting.{◌>>=◌}
use swishxx.IndexFile.{Memory, IndexSegment, entry_at, read_from}
use swishxx.IndexFile.Read.{read_text}
use swishxx.IndexFile.Loops.{
  read_from-entry, read_from-map, read_from-drop, read_from-take, length-read_from,
}
use swishxx.IndexFile.Search.{BinarySearch, is_below, is_above, lower, upper, is_found, find_range}
use swishxx.IndexFile.Range.{
  IsWeakOrder, IsInOrder, like, passing, passing-le, passing_before, passing_behind, passing-like,
  below, not_above,
}

ltb_cases : (a b : ℕ) → (a < b) ⊎ (b ≤ a)
ltb_cases a b = elim (Bool-cases (ltb a b)) [
  | inl y ↦ inl (ground arith)
  | inr n ↦ inr (ground arith)
]

-- Entries that begin with a string, and how an entry is read.
module _ (M : Memory) (B : BinarySearch) (less : List ℕ → List ℕ → Bool) (order : IsWeakOrder less)
    {V : Type 0} (read : List ℕ → Option (List ℕ × V))
    (begins : (p : List ℕ) (e : List ℕ × V) → read p ≡ some e → read_text p ≡ some e.0)
    (s : IndexSegment) (es : List (List ℕ × V))
    (loop : read_from M read s 0 s.num_entries ≡ some es) (sorted : IsInOrder less es)
    (w : List ℕ) where
  counted : length es ≡ s.num_entries
  counted = length-read_from M read s s.num_entries 0 es loop

  string_read :
      (i : ℕ) (e : List ℕ × V) → get_elem? es i ≡ some e → (entry_at M s i >>= read_text) ≡ some e.0
  string_read i e g = elim (Option-cases (entry_at M s i)) [
    | inl out ↦ cc (rw out at (entry i e g))
    | inr (p, a) ↦ rw a (begins p e (rw a at (entry i e g)))
  ]
    where
      entry :
          (i : ℕ) (e : List ℕ × V) → get_elem? es i ≡ some e → (entry_at M s i >>= read) ≡ some e
      entry i e g = read_from-entry M read s s.num_entries 0 es i e i loop g (omega arith)

  -- A search for where a test ends that goes by the strings.
  partition-passing :
      (p : List ℕ → Bool) (test : ℕ → Bool)
      → ((x y : List ℕ) → less y x ≡ false → p y ≡ true → p x ≡ true)
      → ((i : ℕ) (e : List ℕ × V) → get_elem? es i ≡ some e → test i ≡ p e.0)
      → B.partition_point test s.num_entries ≡ passing less p es
  partition-passing p test down tests =
      B.finds_partition test s.num_entries (passing less p es)
        (omega (arith, counted, passing-le less p es))
        (λ i h.
          let (e, g) = get_elem?-some es i (omega (arith, h, passing-le less p es)) in
          tests i e g ∙ passing_before less p es i e h g)
        (λ i h n.
          let (e, g) = get_elem?-some es i (omega (arith, n, counted)) in
          tests i e g ∙ passing_behind less p down es i e sorted h g)

  lower-passing : lower M B less s w ≡ passing less (below less w) es
  unfolding lower
  lower-passing =
      partition-passing (below less w) _ (λ x y. order.below_down x y w)
        (λ i e g. ap (λ v. is_below M B less v w) (string_read i e g))

  not_above_down : (x y : List ℕ) → less y x ≡ false → not (less w y) ≡ true → not (less w x) ≡ true
  not_above_down x y o h = elim (Bool-cases (less w x)) [
    | inl a ↦ cc (rw (order.above_up x y w o a) at h)
    | inr n ↦ rw n refl
  ]

  upper-passing : upper M B less s w ≡ passing less (not_above less w) es
  unfolding upper
  upper-passing =
      partition-passing (not_above less w) _ not_above_down
        (λ i e g. ap (λ v. not (is_above M B less v w)) (string_read i e g))

  -- An entry of a number in front of the upper end is not above the word, and others are.
  before_upper :
      (i : ℕ) (e : List ℕ × V)
      → get_elem? es i ≡ some e
      → i < upper M B less s w
      → less w e.0 ≡ false
  before_upper i e g h =
      let h' = rw upper-passing at h in
      let passes = passing_before less (not_above less w) es i e h' g in ground (arith, passes)

  behind_upper :
      (i : ℕ) (e : List ℕ × V)
      → get_elem? es i ≡ some e
      → upper M B less s w ≤ i
      → less w e.0 ≡ true
  behind_upper i e g h =
      let h' = rw upper-passing at h in
      let fails = passing_behind less (not_above less w) not_above_down es i e sorted h' g in
      ground (arith, fails)

  between :
      take (upper M B less s w - lower M B less s w) (drop (lower M B less s w) es) ≡ like less w es
  between = rw (lower-passing, upper-passing) (passing-like less order w es sorted)

  -- Either the range is empty, and nothing is like the word, or there is an entry at its first number.
  range_cases :
      ((is_found M B less s w ≡ false) × (like less w es ≡ []))
      ⊎ ((e : List ℕ × V) × (is_found M B less s w ≡ true)
          × (get_elem? es (lower M B less s w) ≡ some e)
          × (lower M B less s w < upper M B less s w))
  unfolding is_found
  range_cases = elim (Bool-cases (lower M B less s w == s.num_entries)) [
    | inl z ↦
        let all : length es ≤ lower M B less s w = ground (arith, z, counted) in
        let nothing : like less w es ≡ [] =
          sym between
          ∙ rw (drop_all es (lower M B less s w) all)
              (take-nil (upper M B less s w - lower M B less s w)) in
        inl (rw z refl, nothing)
    | inr n ↦
        let inside : lower M B less s w < length es =
          ground (arith, n, counted, lower-passing, passing-le less (below less w) es) in
        let (e, g) = get_elem?-some es (lower M B less s w) inside in
        let there = string_read (lower M B less s w) e g in
        elim (Bool-cases (less w e.0)) [
          | inl a ↦ inl (rw (n, there, a) refl, sym between ∙ empty e g a)
          | inr m ↦ inr (e, rw (n, there, m) refl, g, more e g m)
        ]
  ]
    where
      empty :
          (e : List ℕ × V)
          → get_elem? es (lower M B less s w) ≡ some e
          → less w e.0 ≡ true
          → take (upper M B less s w - lower M B less s w) (drop (lower M B less s w) es) ≡ []
      empty e g a = elim (ltb_cases (lower M B less s w) (upper M B less s w)) [
        | inl l ↦ cc (before_upper _ e g l, a)
        | inr l ↦
            let nothing : upper M B less s w - lower M B less s w ≡ 0 = omega arith in
            rw nothing refl
      ]

      more :
          (e : List ℕ × V)
          → get_elem? es (lower M B less s w) ≡ some e
          → less w e.0 ≡ false
          → lower M B less s w < upper M B less s w
      more e g m = elim (ltb_cases (lower M B less s w) (upper M B less s w)) [
        | inl l ↦ l
        | inr l ↦ cc (behind_upper _ e g l, m)
      ]

  -- The entry at the first number is the first that compares equal.
  pub range_like :
      ((is_found M B less s w ≡ false) × (like less w es ≡ []))
      ⊎ ((e : List ℕ × V) × (rest : List (List ℕ × V)) × (is_found M B less s w ≡ true)
          × (get_elem? es (lower M B less s w) ≡ some e)
          × (like less w es ≡ e ∷ rest))
  range_like = elim range_cases [
    | inl out ↦ inl out
    | inr (e, found, g, inside) ↦
        let (rest, first) =
          take-drop_first es (lower M B less s w) (upper M B less s w - lower M B less s w) e g
            (omega arith) in
        inr (e, rest, found, g, sym between ∙ first)
  ]

  -- Besides the strings, more is read at each entry.
  module _ {F : Type 0} (read' : List ℕ → Option F) (g : List ℕ × V → F)
      (more : (p : List ℕ) (e : List ℕ × V) → read p ≡ some e → read' p ≡ some (g e)) where
    all_more :
        (xs : List (List ℕ × V))
        → All (λ e. (p : List ℕ) → read p ≡ some e → read' p ≡ some (g e)) xs
    all_more [] = tt
    all_more (x ∷ xs) = (λ p. more p x, all_more xs)

    pub find_range-like : find_range M B less read' s w ≡ some (map g (like less w es))
    unfolding find_range
    find_range-like = elim range_cases [
      | inl (out, nothing) ↦ rw (out, nothing) refl
      | inr (e, found, at_first, some_left) ↦
          let low = lower M B less s w in
          let high = upper M B less s w in
          let part = read_from-drop M read s s.num_entries 0 es low low loop (omega arith) in
          let fits : high - low ≤ s.num_entries - low =
            omega (arith, upper-passing, passing-le less (not_above less w) es, counted) in
          let range =
            read_from-take M read s (s.num_entries - low) low (drop low es) (high - low) part
              fits in
          rw found (
            read_from-map M read s read' g (high - low) low (take (high - low) (drop low es))
              (all_more _) range
            ∙ ap (λ xs. some (map g xs)) between)
    ]
