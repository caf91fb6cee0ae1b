-- ===== src/IndexFile/Entries.antt =====
-- The entries of one segment, written one behind the other, and read again by a loop over it.
use swishxx.Common.Places.{length-map}
use swishxx.Common.{
  ℕ, suc, ◌+◌, ◌*◌, ◌^◌, ◌<◌, ◌≡◌, refl, ap, ◌∙◌, arith, List, [], ◌∷◌, ◌++◌, map, Option, some,
  length, All, append_assoc, length-append,
}
use mathlib.Core.Path.{subst}
use swishxx.IndexFile.{Memory, IndexSegment, read_from, read_segment}
use swishxx.IndexFile.Layout.{
  concat, placed, length-placed, longs, head, heads, heads-append, set_index_file-heads,
  entry_at-place,
}

-- One kind of entries: how it is written and read, the bytes, and the values for which these agree.
pub record Codec (E : Type 0) : Type 1 where
  pub write : E → Option (List ℕ)
  pub read : List ℕ → Option E
  pub bytes : E → List ℕ
  pub IsEntry : E → Type 0
  pub is_written : (e : E) → IsEntry e → write e ≡ some (bytes e)
  pub is_read : (e : E) (rest : List ℕ) → IsEntry e → read (bytes e ++ rest) ≡ some e

module _ (M : Memory) (file : List ℕ) (fits : length file < 2 ^ 63) {E : Type 0} (C : Codec E) where
  -- The offsets that are left stand in the file behind `front`, the entries behind `before`.
  read_from-entries :
      (es : List E) (s : IndexSegment) (i : ℕ) (front rest before later : List ℕ)
      → s.begin ≡ file
      → s.offset + i * 8 ≡ length front
      → file ≡ front ++ (longs M (placed (length before) (map C.bytes es)) ++ rest)
      → file ≡ before ++ (concat (map C.bytes es) ++ later)
      → All C.IsEntry es
      → read_from M C.read s i (length es) ≡ some es
  unfolding read_from placed longs concat
  read_from-entries [] s i front rest before later b n e e' h = refl
  read_from-entries (x ∷ es) s i front rest before later b n e e' (h, hs) =
      let own = M.bytes_of (length before) in
      let offsets = longs M (placed (length before + length (C.bytes x)) (map C.bytes es)) in
      let behind = concat (map C.bytes es) ++ later in
      let offset_here : file ≡ front ++ (own ++ (offsets ++ rest)) = e ∙ simp append_assoc refl in
      let entry_here : file ≡ before ++ (C.bytes x ++ behind) = e' ∙ simp append_assoc refl in
      let next : s.offset + suc i * 8 ≡ length (front ++ own) =
        omega (arith, n, length-append front own, M.bytes_are_eight (length before)) in
      let shift = length-append before (C.bytes x) in
      let offsets_next : file
          ≡ (front ++ own)
            ++ (longs M (placed (length (before ++ C.bytes x)) (map C.bytes es)) ++ rest) =
        rw shift (offset_here ∙ simp append_assoc refl) in
      let entries_next : file ≡ (before ++ C.bytes x) ++ behind =
        entry_here ∙ simp append_assoc refl in
      rw
        (
          entry_at-place M file fits s i front (offsets ++ rest) before (C.bytes x ++ behind) b
              offset_here n entry_here,
          C.is_read x behind h,
          read_from-entries es s (suc i) (front ++ own) rest (before ++ C.bytes x) later b next
              offsets_next entries_next hs,
        )
        refl

  offsets_place :
      (front : List (List ℕ)) (os : List ℕ) (back : List (List ℕ)) (body : List ℕ)
      → file ≡ heads M (front ++ (os ∷ back)) ++ body
      → file ≡ (heads M front ++ M.bytes_of (length os)) ++ (longs M os ++ (heads M back ++ body))
  unfolding heads head
  offsets_place front os back body e =
      e ∙ rw (heads-append M front (os ∷ back)) (simp append_assoc refl)

  -- A whole segment is read, from its place among the others.
  pub read_segment-entries :
      (es : List E) (front back : List (List ℕ)) (body before later : List ℕ) (pos : ℕ)
      → pos ≡ length before
      → file ≡ heads M (front ++ (placed pos (map C.bytes es) ∷ back)) ++ body
      → file ≡ before ++ (concat (map C.bytes es) ++ later)
      → All C.IsEntry es
      → read_segment M C.read file (length front) ≡ some es
  unfolding read_segment
  read_segment-entries es front back body before later pos p e e' h =
      let os = placed pos (map C.bytes es) in
      let count : length os ≡ length es =
        length-placed pos (map C.bytes es) ∙ length-map C.bytes es in
      let place : length (heads M front) + 8 + 0 * 8
          ≡ length (heads M front ++ M.bytes_of (length os)) =
        omega (
          arith,
          M.bytes_are_eight (length os),
          length-append (heads M front) (M.bytes_of (length os)),
        ) in
      let segment : IndexSegment = record {
        begin = file;
        num_entries = length os;
        offset = length (heads M front) + 8;
      } in
      rw (set_index_file-heads M file fits front os back body e) (
        ap (read_from M C.read segment 0) count
        ∙ read_from-entries es segment 0 (heads M front ++ M.bytes_of (length os))
            (heads M back ++ body) before later refl place
            (subst
              (λ n.
                file
                ≡ (heads M front ++ M.bytes_of (length os))
                  ++ (longs M (placed n (map C.bytes es)) ++ (heads M back ++ body)))
              p (offsets_place front os back body e))
            e' h)
