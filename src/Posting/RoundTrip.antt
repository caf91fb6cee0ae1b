-- ===== src/Posting/RoundTrip.antt =====
-- An entry of the word index, read back as it was written.
use swishxx.Common.{
  ℕ, zero, suc, ◌%◌, ◌^◌, ◌≤◌, ◌<◌, ◌≡◌, refl, sym, ap, ◌∙◌, arith, Bool, true, false, List, [],
  ◌∷◌, ◌++◌, some, if◌then◌else◌, length, length-append, append_assoc,
}
use swishxx.Vlq.Encode.{digits, encode-digits}
use swishxx.Vlq.Decode.{decode-digits}
use swishxx.Posting.{
  stop_marker, meta_name_list_marker, word_pos_list_marker, word_entry_continues_marker, File,
  IsFile, write_meta_ids, write_word_pos, write_file, is_empty,
}
use swishxx.Posting.Reader.{
  Cursor, end_value, at, Iterator, read_lists, read_file, push_back, insert_meta,
}
use swishxx.Posting.Lists.{
  short_codes, write_shorts-codes, length-short_codes, read_codes-short_codes, put_all-push_back,
  put_all-insert_meta, IsApart-nil,
}

-- A list of shorts with its marker, or nothing where the list is empty.
abbrev pub list_bytes : ℕ → List ℕ → List ℕ
list_bytes marker [] = []
list_bytes marker (s ∷ ss) = marker ∷ (short_codes (s ∷ ss) ++ (stop_marker ∷ []))

unfoldable pub file_bytes : File → List ℕ
file_bytes f =
    digits f.index
    ++ (digits f.occurrences
        ++ (digits f.rank
            ++ (list_bytes meta_name_list_marker f.meta_ids
                ++ list_bytes word_pos_list_marker f.pos_deltas)))

write_list-meta :
    (f : File) (ss : List ℕ)
    → f.meta_ids ≡ ss
    → IsFile f
    → (if is_empty ss then some [] else write_meta_ids f)
      ≡ some (list_bytes meta_name_list_marker ss)
unfolding write_meta_ids
write_list-meta f [] e h = refl
write_list-meta f (s ∷ ss) e h = rw (write_shorts-codes f.meta_ids h.meta_ids_fit) (rw e)

write_list-pos :
    (f : File) (ss : List ℕ)
    → f.pos_deltas ≡ ss
    → IsFile f
    → (if is_empty ss then some [] else write_word_pos f)
      ≡ some (list_bytes word_pos_list_marker ss)
unfolding write_word_pos
write_list-pos f [] e h = refl
write_list-pos f (s ∷ ss) e h = rw (write_shorts-codes f.pos_deltas h.pos_deltas_fit) (rw e)

pub write_file-bytes : (f : File) → IsFile f → write_file f ≡ some (file_bytes f)
unfolding write_file file_bytes
write_file-bytes f h =
    let i = h.index_fits in
    let o = h.occurrences_fits in
    let r = h.rank_fits in
    rw (
      encode-digits f.index (omega arith),
      encode-digits f.occurrences (omega arith),
      encode-digits f.rank (omega arith),
      write_list-meta f f.meta_ids refl h,
      write_list-pos f f.pos_deltas refl h,
    )

-- What stands behind the lists of a file: the end of the entry, or another file.
abbrev pub ending : Bool → List ℕ → List ℕ
ending last rest = (if last then stop_marker else word_entry_continues_marker) ∷ rest

abbrev pub cursor : Bool → List ℕ → Cursor
cursor last rest = if last then end_value else at rest

read_end :
    (fuel : ℕ) (last : Bool) (rest : List ℕ) (f : File)
    → 1 ≤ fuel
    → read_lists fuel (ending last rest) f ≡ some (record { c = cursor last rest; v = f })
unfolding read_lists
read_end zero last rest f h = absurd (omega arith)
read_end (suc k) true rest f h = refl
read_end (suc k) false rest f h = refl

fuel_enough : (ss tail : List ℕ) → length ss < length (short_codes ss ++ (stop_marker ∷ tail))
fuel_enough ss tail =
    omega (arith, length-append (short_codes ss) (stop_marker ∷ tail), length-short_codes ss)

-- The bytes behind a list that is there are fewer than the fuel left.
tail_fuel :
    (marker : ℕ) (ss tail : List ℕ) (fuel : ℕ)
    → length ((marker ∷ (short_codes ss ++ (stop_marker ∷ []))) ++ tail) ≤ suc fuel
    → length tail ≤ fuel
tail_fuel marker ss tail fuel l = omega (
  arith,
  length-append (short_codes ss ++ (stop_marker ∷ [])) tail,
  length-append (short_codes ss) (stop_marker ∷ []),
)

read_pos :
    (fuel : ℕ) (ss tail : List ℕ) (f : File)
    → IsFile f
    → f.pos_deltas ≡ ss
    → read_lists
        (suc fuel)
        (word_pos_list_marker ∷ (short_codes ss ++ (stop_marker ∷ tail)))
        (record f { pos_deltas = [] })
      ≡ read_lists fuel tail f
unfolding read_lists
read_pos fuel ss tail f h e =
    let fits = rw e at (h.pos_deltas_fit) in
    rw (
      read_codes-short_codes push_back ss _ [] tail fits (fuel_enough ss tail),
      put_all-push_back [] ss fits,
      ← e,
    )

read_meta :
    (fuel : ℕ) (ss tail : List ℕ) (f : File)
    → IsFile f
    → f.meta_ids ≡ ss
    → read_lists
        (suc fuel)
        (meta_name_list_marker ∷ (short_codes ss ++ (stop_marker ∷ tail)))
        (record f { meta_ids = []; pos_deltas = [] })
      ≡ read_lists fuel tail (record f { pos_deltas = [] })
unfolding read_lists
read_meta fuel ss tail f h e =
    let fits = rw e at (h.meta_ids_fit) in
    let differ = rw e at (h.meta_ids_differ) in
    rw (
      read_codes-short_codes insert_meta ss _ [] tail fits (fuel_enough ss tail),
      put_all-insert_meta [] ss fits (IsApart-nil ss) differ,
      ← e,
    )

read_pos_list :
    (ds : List ℕ) (fuel : ℕ) (last : Bool) (rest : List ℕ) (f : File)
    → IsFile f
    → f.pos_deltas ≡ ds
    → length (list_bytes word_pos_list_marker ds ++ ending last rest) ≤ fuel
    → read_lists fuel
        (list_bytes word_pos_list_marker ds ++ ending last rest)
        (record f { pos_deltas = [] })
      ≡ some (record { c = cursor last rest; v = f })
read_pos_list [] fuel last rest f h e l = rw (← e) (read_end fuel last rest f (omega arith))
read_pos_list (s ∷ ss) zero last rest f h e l = absurd (omega arith)
read_pos_list (s ∷ ss) (suc fuel) last rest f h e l = rw append_assoc (
    read_pos fuel (s ∷ ss) (ending last rest) f h e
    ∙ read_end fuel last rest f
        (omega (arith, tail_fuel word_pos_list_marker (s ∷ ss) (ending last rest) fuel l)))

read_meta_list :
    (ids : List ℕ) (fuel : ℕ) (tail : List ℕ) (f : File) {it : Iterator}
    → IsFile f
    → f.meta_ids ≡ ids
    → length (list_bytes meta_name_list_marker ids ++ tail) ≤ fuel
    → ((k : ℕ) → length tail ≤ k → read_lists k tail (record f { pos_deltas = [] }) ≡ some it)
    → read_lists fuel
        (list_bytes meta_name_list_marker ids ++ tail)
        (record f { meta_ids = []; pos_deltas = [] })
      ≡ some it
read_meta_list [] fuel tail f h e l next =
    ap (λ ids. read_lists fuel tail (record f { meta_ids = ids; pos_deltas = [] })) (sym e)
    ∙ next fuel l
read_meta_list (s ∷ ss) zero tail f h e l next = absurd (omega arith)
read_meta_list (s ∷ ss) (suc fuel) tail f h e l next = rw append_assoc (
    read_meta fuel (s ∷ ss) tail f h e
    ∙ next fuel (tail_fuel meta_name_list_marker (s ∷ ss) tail fuel l))

-- The bytes of a file, and what ends it, are read as that file.
pub read_file-bytes :
    (f : File) (last : Bool) (rest : List ℕ)
    → IsFile f
    → read_file (file_bytes f ++ ending last rest) ≡ some (record { c = cursor last rest; v = f })
unfolding read_file file_bytes
read_file-bytes f last rest h =
    let i = h.index_fits in
    let o = h.occurrences_fits in
    let r = h.rank_fits in
    let ei : f.index % 2 ^ 32 ≡ f.index = omega arith in
    let eo : f.occurrences % 2 ^ 32 ≡ f.occurrences = omega arith in
    let er : f.rank % 2 ^ 32 ≡ f.rank = omega arith in
    rw append_assoc (
      rw append_assoc (
        rw append_assoc (
          rw append_assoc (
            rw
              (
                decode-digits f.index _ (omega arith),
                decode-digits f.occurrences _ (omega arith),
                decode-digits f.rank _ (omega arith),
                ei,
                eo,
                er,
              )
              (read_meta_list f.meta_ids _ _ f h refl (omega arith)
                (λ k l. read_pos_list f.pos_deltas k last rest f h refl l))))))
