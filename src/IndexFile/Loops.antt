-- ===== src/IndexFile/Loops.antt =====
-- Loops over the entries of a segment: what they read at one entry, and other loops over the same entries.
use swishxx.Common.{
  ℕ, zero, suc, ◌+◌, ◌≡◌, refl, arith, List, [], ◌∷◌, map, ◌-◌, ◌≤◌, take, drop, length, ap, Option,
  some, Option-cases, inl, inr, get_elem?, All,
}
use swishxx.Posting.{◌>>=◌}
use swishxx.IndexFile.{Memory, IndexSegment, set_index_file, entry_at, read_from, read_segment}

module _ (M : Memory) {E : Type 0} (read : List ℕ → Option E) (s : IndexSegment) where
  -- A round of a loop over a segment that was read.
  pub read_from-round :
      (i left : ℕ) (es : List E)
      → read_from M read s i (suc left) ≡ some es
      → (p : List ℕ) × (e : E) × (rest : List E) × (entry_at M s i ≡ some p)
        × (read p ≡ some e)
        × (read_from M read s (suc i) left ≡ some rest)
        × (es ≡ e ∷ rest)
  unfolding read_from
  read_from-round i left es h = elim (Option-cases (entry_at M s i)) [
    | inl out ↦ cc (rw out at h)
    | inr (p, a) ↦ elim (Option-cases (read p)) [
      | inl out ↦ cc (rw (a, out) at h)
      | inr (e, b) ↦ elim (Option-cases (read_from M read s (suc i) left)) [
        | inl out ↦ cc (rw (a, b, out) at h)
        | inr (rest, c) ↦ (p, e, rest, a, b, c, cc (rw (a, b, c) at h))
      ]
    ]
  ]

  -- What the loop reads at an entry.
  pub read_from-entry :
      (left i : ℕ) (es : List E) (k : ℕ) (e : E) (j : ℕ)
      → read_from M read s i left ≡ some es
      → get_elem? es k ≡ some e
      → j ≡ i + k
      → (entry_at M s j >>= read) ≡ some e
  unfolding read_from
  read_from-entry zero i [] k e j h g n = cc g
  read_from-entry zero i (x ∷ es) k e j h g n = cc h
  read_from-entry (suc left) i [] k e j h g n = cc g
  read_from-entry (suc left) i (x ∷ es) zero e j h g n =
      let (p, first, rest, a, b, c, d) = read_from-round i left (x ∷ es) h in
      let same : first ≡ e = cc (d, g) in
      let here : j ≡ i = omega arith in rw (here, a, b, same) refl
  read_from-entry (suc left) i (x ∷ es) (suc k) e j h g n =
      let (p, first, rest, a, b, c, d) = read_from-round i left (x ∷ es) h in
      let same : rest ≡ es = cc d in
      read_from-entry left (suc i) es k e j (rw same at c) g (omega arith)

  -- Another loop over the same entries, which reads more of each.
  pub read_from-map :
      {F : Type 0} (read' : List ℕ → Option F) (g : E → F) (left i : ℕ) (es : List E)
      → All (λ e. (p : List ℕ) → read p ≡ some e → read' p ≡ some (g e)) es
      → read_from M read s i left ≡ some es
      → read_from M read' s i left ≡ some (map g es)
  unfolding read_from
  read_from-map read' g zero i [] more h = refl
  read_from-map read' g zero i (x ∷ es) more h = cc h
  read_from-map read' g (suc left) i [] more h =
      let (p, first, rest, a, b, c, d) = read_from-round i left [] h in cc d
  read_from-map read' g (suc left) i (x ∷ es) (m, ms) h =
      let (p, first, rest, a, b, c, d) = read_from-round i left (x ∷ es) h in
      let same : first ≡ x = cc d in
      let others : rest ≡ es = cc d in
      rw (a, m p (rw same at b), read_from-map read' g left (suc i) es ms (rw others at c)) refl

pub read_segment-opened :
    (M : Memory) {E : Type 0} (read : List ℕ → Option E) (file : List ℕ) (id : ℕ) (es : List E)
    → read_segment M read file id ≡ some es
    → (s : IndexSegment) × (set_index_file M file id ≡ some s)
      × (read_from M read s 0 s.num_entries ≡ some es)
unfolding read_segment
read_segment-opened M read file id es h = elim (Option-cases (set_index_file M file id)) [
  | inl out ↦ cc (rw out at h)
  | inr (s, a) ↦ (s, a, rw a at h)
]

pub read_segment-map :
    (M : Memory) {E F : Type 0} (read : List ℕ → Option E) (read' : List ℕ → Option F) (g : E → F)
    (file : List ℕ) (id : ℕ) (es : List E)
    → All (λ e. (p : List ℕ) → read p ≡ some e → read' p ≡ some (g e)) es
    → read_segment M read file id ≡ some es
    → read_segment M read' file id ≡ some (map g es)
unfolding read_segment
read_segment-map M read read' g file id es more h =
    let (s, found, loop) = read_segment-opened M read file id es h in
    rw found (read_from-map M read s read' g s.num_entries 0 es more loop)

module _ (M : Memory) {E : Type 0} (read : List ℕ → Option E) (s : IndexSegment) where
  -- The loops over a part of the entries.
  pub read_from-drop :
      (left i : ℕ) (es : List E) (k j : ℕ)
      → read_from M read s i left ≡ some es
      → j ≡ i + k
      → read_from M read s j (left - k) ≡ some (drop k es)
  unfolding read_from
  read_from-drop left i es zero j h e =
      let all : left - 0 ≡ left = omega arith in let here : j ≡ i = omega arith in rw (all, here) h
  read_from-drop zero i [] (suc k) j h e =
      let nothing : 0 - suc k ≡ 0 = omega arith in rw nothing refl
  read_from-drop zero i (x ∷ es) (suc k) j h e = cc h
  read_from-drop (suc left) i [] (suc k) j h e =
      let (p, first, rest, a, b, c, d) = read_from-round M read s i left [] h in cc d
  read_from-drop (suc left) i (x ∷ es) (suc k) j h e =
      let (p, first, rest, a, b, c, d) = read_from-round M read s i left (x ∷ es) h in
      let fewer : suc left - suc k ≡ left - k = omega arith in
      let same : rest ≡ es = cc d in
      rw fewer (read_from-drop left (suc i) es k j (rw same at c) (omega arith))

  pub length-read_from :
      (left i : ℕ) (es : List E) → read_from M read s i left ≡ some es → length es ≡ left
  unfolding read_from
  length-read_from zero i [] h = refl
  length-read_from zero i (x ∷ es) h = cc h
  length-read_from (suc left) i es h =
      let (p, first, rest, a, b, c, d) = read_from-round M read s i left es h in
      rw d (ap suc (length-read_from left (suc i) rest c))

  pub read_from-take :
      (left i : ℕ) (es : List E) (k : ℕ)
      → read_from M read s i left ≡ some es
      → k ≤ left
      → read_from M read s i k ≡ some (take k es)
  unfolding read_from
  read_from-take left i es zero h l = refl
  read_from-take zero i es (suc k) h l = absurd (omega arith)
  read_from-take (suc left) i es (suc k) h l =
      let (p, first, rest, a, b, c, d) = read_from-round M read s i left es h in
      rw (d, a, b, read_from-take left (suc i) rest k c (omega arith)) refl
