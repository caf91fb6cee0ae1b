-- ===== src/IndexFile/Layout.antt =====
-- What is read through `index_segment` in a file that is laid out as heads of segments and bytes of entries.
use swishxx.Common.{
  ℕ, suc, ◌+◌, ◌*◌, ◌%◌, ◌^◌, ◌<◌, ◌≡◌, refl, ap, ◌∙◌, arith, true, List, [], ◌∷◌, ◌++◌, some, ltb,
  length, drop, append_assoc, length-append, drop-length,
}
use swishxx.IndexFile.{Memory, IndexSegment, skip_segments, set_index_file, entry_at}

-- The bytes of a list of entries.
unfoldable pub concat : List (List ℕ) → List ℕ
concat [] = []
concat (bs ∷ bss) = bs ++ concat bss

-- The offsets of entries that stand one behind the other, the first one at `pos`.
unfoldable pub placed : ℕ → List (List ℕ) → List ℕ
placed pos [] = []
placed pos (bs ∷ bss) = pos ∷ placed (pos + length bs) bss

pub length-placed : (pos : ℕ) (bss : List (List ℕ)) → length (placed pos bss) ≡ length bss
unfolding placed
length-placed pos [] = refl
length-placed pos (bs ∷ bss) = ap suc (length-placed (pos + length bs) bss)

-- A place in a list, given by what stands in front of it.
pub drop_front :
    {file : List ℕ} (front : List ℕ) {rest : List ℕ} {n : ℕ}
    → file ≡ front ++ rest
    → n ≡ length front
    → drop n file ≡ rest
drop_front front {rest} e h = rw (h, e) (drop-length front rest)

module _ (M : Memory) where
  -- The bytes of an array of offsets.
  unfoldable pub longs : List ℕ → List ℕ
  longs [] = []
  longs (o ∷ os) = M.bytes_of o ++ longs os

  pub length-longs : (os : List ℕ) → length (longs os) ≡ length os * 8
  unfolding longs
  length-longs [] = refl
  length-longs (o ∷ os) =
      omega (arith, M.bytes_are_eight o, length-longs os, length-append (M.bytes_of o) (longs os))

  -- The head of a segment: its count, and its offsets.
  unfoldable pub head : List ℕ → List ℕ
  head os = M.bytes_of (length os) ++ longs os

  pub length-head : (os : List ℕ) → length (head os) ≡ 8 + length os * 8
  unfolding head
  length-head os = omega (
    arith,
    M.bytes_are_eight (length os),
    length-longs os,
    length-append (M.bytes_of (length os)) (longs os),
  )

  unfoldable pub heads : List (List ℕ) → List ℕ
  heads [] = []
  heads (os ∷ oss) = head os ++ heads oss

  pub heads-append : (xs ys : List (List ℕ)) → heads (xs ++ ys) ≡ heads xs ++ heads ys
  unfolding heads
  heads-append [] ys = refl
  heads-append (x ∷ xs) ys = rw (heads-append xs ys) (simp append_assoc refl)

  first_count : List (List ℕ) → ℕ
  first_count [] = 0
  first_count (os ∷ oss) = length os

  module _ (file : List ℕ) (fits : length file < 2 ^ 63) where
    -- A number that stands in the file is read there.
    value_at_place :
        (front : List ℕ) (v : ℕ) (rest : List ℕ) (n : ℕ)
        → v < 2 ^ 64
        → file ≡ front ++ (M.bytes_of v ++ rest)
        → n ≡ length front
        → M.value_at (drop n file) ≡ some v
    value_at_place front v rest n small e h =
        rw (drop_front front e h) (M.bytes_read_back v rest small)

    segment_fits :
        (before : List ℕ) (os rest : List ℕ)
        → file ≡ before ++ (head os ++ rest)
        → length before + (8 + length os * 8) < 2 ^ 63
    segment_fits before os rest e = omega (
      arith,
      fits,
      ap length e,
      length-append before (head os ++ rest),
      length-append (head os) rest,
      length-head os,
    )

    value_at_head :
        (before os rest : List ℕ)
        → file ≡ before ++ (head os ++ rest)
        → M.value_at (drop (length before) file) ≡ some (length os)
    unfolding head
    value_at_head before os rest e =
        value_at_place before (length os) (longs os ++ rest) (length before)
          (omega (arith, segment_fits before os rest e)) (e ∙ simp append_assoc refl) refl

    -- The count of the first of some segments.
    value_at_first :
        (front : List (List ℕ)) (os : List ℕ) (back : List (List ℕ)) (before tail : List ℕ)
        → file ≡ before ++ (heads (front ++ (os ∷ back)) ++ tail)
        → M.value_at (drop (length before) file) ≡ some (first_count (front ++ (os ∷ back)))
    unfolding heads first_count
    value_at_first [] os back before tail e =
        value_at_head before os (heads back ++ tail) (e ∙ simp append_assoc refl)
    value_at_first (f ∷ front) os back before tail e =
        value_at_head before f (heads (front ++ (os ∷ back)) ++ tail) (e ∙ simp append_assoc refl)

    -- The loop passes the segments in front, and stops at the one that is asked for.
    skip_segments-heads :
        (front : List (List ℕ)) (os : List ℕ) (back : List (List ℕ)) (before tail : List ℕ)
        → file ≡ before ++ (heads (front ++ (os ∷ back)) ++ tail)
        → skip_segments M file (length front) (length before) (first_count (front ++ (os ∷ back)))
          ≡ some (record {
            begin = file;
            num_entries = length os;
            offset = length before + length (heads front) + 8;
          })
    unfolding skip_segments first_count heads
    skip_segments-heads [] os back before tail e =
        let same : length before + 8 ≡ length before + 0 + 8 = omega arith in rw same refl
    skip_segments-heads (f ∷ front) os back before tail e =
        let later = heads (front ++ (os ∷ back)) ++ tail in
        let here : file ≡ before ++ (head f ++ later) = e ∙ simp append_assoc refl in
        let place : length before + (8 + length f * 8) % 2 ^ 64 ≡ length (before ++ head f) =
          omega (
            arith,
            segment_fits before f later here,
            length-append before (head f),
            length-head f,
          ) in
        let there : file ≡ (before ++ head f) ++ later = here ∙ simp append_assoc refl in
        let ends : length (before ++ head f) + length (heads front) + 8
            ≡ length before + length (head f ++ heads front) + 8 =
          omega (arith, length-append before (head f), length-append (head f) (heads front)) in
        rw (place, value_at_first front os back (before ++ head f) tail there)
          (skip_segments-heads front os back (before ++ head f) tail there ∙ rw ends refl)

    pub set_index_file-heads :
        (front : List (List ℕ)) (os : List ℕ) (back : List (List ℕ)) (tail : List ℕ)
        → file ≡ heads (front ++ (os ∷ back)) ++ tail
        → set_index_file M file (length front)
          ≡ some
              (record { begin = file; num_entries = length os; offset = length (heads front) + 8 })
    unfolding set_index_file
    set_index_file-heads front os back tail e =
        let from_start : 0 + length (heads front) + 8 ≡ length (heads front) + 8 = omega arith in
        rw (value_at_first front os back [] tail e)
          (skip_segments-heads front os back [] tail e ∙ rw from_start refl)

    -- An offset that is stored leads to what stands there.
    pub entry_at-place :
        (s : IndexSegment) (i : ℕ) (front rest : List ℕ) (before : List ℕ) (later : List ℕ)
        → s.begin ≡ file
        → file ≡ front ++ (M.bytes_of (length before) ++ rest)
        → s.offset + i * 8 ≡ length front
        → file ≡ before ++ later
        → entry_at M s i ≡ some later
    unfolding entry_at
    entry_at-place s i front rest before later b e n e' =
        let small : length before < 2 ^ 63 =
          omega (arith, fits, ap length e', length-append before later) in
        let below : ltb (length before) (2 ^ 63) ≡ true = ground (arith, small) in
        let there : drop (length before) file ≡ later = drop_front before e' refl in
        let value : M.value_at (drop (s.offset + i * 8) file) ≡ some (length before) =
          value_at_place front (length before) rest _ (omega (arith, small)) e n in
        rw (b, value, below, there) refl
