-- ===== src/Posting/Reader.antt =====
-- src/file_list.h and src/file_list.cpp: the list of files of a word, read from its bytes in the
-- index. A pointer into the mapped index is the list of bytes from there on; a read behind the last
-- byte gives `none`. A loop over bytes takes the number of bytes left for its fuel, and each
-- round uses up one byte at least; with no fuel left the answer is `none` too.
use swishxx.Common.{
  ℕ, zero, suc, ◌+◌, ◌%◌, ◌^◌, List, [], ◌∷◌, ◌++◌, Option, none, some, ◌==◌, if◌then◌else◌, length,
}
use swishxx.Vlq.{continues, decode}
use swishxx.Posting.{
  stop_marker, meta_name_list_marker, word_pos_list_marker, word_entry_continues_marker, to_short,
  File, new_file, contains, ◌>>=◌,
}

-- `while ( *ptr_++ ) ;` of the constructor `file_list( index_segment::const_iterator )`.
unfoldable pub skip_word : List ℕ → Option (List ℕ)
skip_word [] = none
skip_word (b ∷ bs) = let rest = skip_word bs in if b == 0 then some bs else rest

-- `std::unordered_set::insert`
abbrev pub insert : List ℕ → ℕ → List ℕ
insert ids m = if contains ids m then ids else ids ++ (m ∷ [])

-- What a loop `while ( *c_ != Stop_Marker )` does with each number.
abbrev pub push_back : List ℕ → ℕ → List ℕ
push_back ds v = ds ++ (to_short v ∷ [])

abbrev pub insert_meta : List ℕ → ℕ → List ℕ
insert_meta ids v = insert ids (to_short v)

abbrev pub ignore : List ℕ → ℕ → List ℕ
ignore xs v = xs

-- The loop, and the `++c_` that skips the stop marker behind it.
unfoldable pub read_codes : (List ℕ → ℕ → List ℕ) → ℕ → List ℕ → List ℕ → Option (List ℕ × List ℕ)
read_codes put zero bs acc = none
read_codes put (suc fuel) [] acc = none
read_codes put (suc fuel) (b ∷ bs) acc =
    if b == stop_marker
    then some (acc, bs)
    else (decode (b ∷ bs) >>= λ p. read_codes put fuel p.1 (put acc p.0))

-- `c_`: the null pointer, the address of `end_value`, or a place in the index.
pub data Cursor : Type 0 where
  null : Cursor
  end_value : Cursor
  at : List ℕ → Cursor

pub record Iterator : Type 0 where
  pub c : Cursor
  pub v : File

-- The loop `while ( true )` of `operator++`; `f` is `v_` so far.
unfoldable pub read_lists : ℕ → List ℕ → File → Option Iterator
read_lists zero bs f = none
read_lists (suc fuel) [] f = none
read_lists (suc fuel) (b ∷ bs) f =
    if b == stop_marker
    then some (record { c = end_value; v = f })
    else if b == word_entry_continues_marker
    then some (record { c = at bs; v = f })
    else if b == meta_name_list_marker
    then (read_codes insert_meta (length bs) bs f.meta_ids >>= λ p.
        read_lists fuel p.1 (record f { meta_ids = p.0 }))
    else if b == word_pos_list_marker
    then (read_codes push_back (length bs) bs f.pos_deltas >>= λ p.
        read_lists fuel p.1 (record f { pos_deltas = p.0 }))
    else (read_codes ignore (length bs) bs [] >>= λ p. read_lists fuel p.1 f)

-- `operator++` at a place in the index: three numbers, then lists.
unfoldable pub read_file : List ℕ → Option Iterator
read_file bs = do
  i ← decode bs
  o ← decode i.1
  r ← decode o.1
  read_lists (length r.1) r.1 (record {
    index = i.0 % 2 ^ 32;
    occurrences = o.0 % 2 ^ 32;
    rank = r.0 % 2 ^ 32;
    meta_ids = [];
    pos_deltas = [];
  })

unfoldable pub advance : Iterator → Option Iterator
unfolding read_file
advance it = elim it.c [
  | null ↦ some (record it { c = null })
  | end_value ↦ some (record it { c = null })
  | at bs ↦ read_file bs
]

-- `const_iterator( p )`, with a `v_` that nothing has been read into.
unfoldable pub begin : List ℕ → Option Iterator
unfolding advance
begin bs = advance (record { c = at bs; v = new_file 0 })

-- `for ( auto const &file : list )`: each `*it` until `it == end()`, that is `c_` is null.
unfoldable pub collect : ℕ → Iterator → Option (List File)
collect zero it = none
collect (suc fuel) it = elim it.c [
  | null ↦ some []
  | end_value ↦ (do next ← advance it; rest ← collect fuel next; some (it.v ∷ rest))
  | at bs ↦ (do next ← advance it; rest ← collect fuel next; some (it.v ∷ rest))
]

-- Every file that a loop over the list meets; `bs` is where `ptr_` points. The fuel is the number of
-- bytes and two: an entry takes a byte at least.
unfoldable pub files : List ℕ → Option (List File)
unfolding begin collect
files bs = begin bs >>= collect (suc (suc (length bs)))

-- `while ( *p++ & 0x80 ) ;` of `calc_size`.
unfoldable pub skip : List ℕ → Option (List ℕ)
skip [] = none
skip (b ∷ bs) = let rest = skip bs in if continues b then rest else some bs

-- `while ( *p != Stop_Marker ) while ( *p++ & 0x80 ) ;`, and the `++p` behind it.
unfoldable pub skip_codes : ℕ → List ℕ → Option (List ℕ)
skip_codes zero bs = none
skip_codes (suc fuel) [] = none
skip_codes (suc fuel) (b ∷ bs) =
    if b == stop_marker then some bs else (skip (b ∷ bs) >>= skip_codes fuel)

-- The loop over lists of `calc_size`: `none` inside for the stop marker, or where the next file is.
unfoldable pub skip_lists : ℕ → List ℕ → Option (Option (List ℕ))
skip_lists zero bs = none
skip_lists (suc fuel) [] = none
skip_lists (suc fuel) (b ∷ bs) =
    if b == stop_marker
    then some none
    else if b == word_entry_continues_marker
    then some (some bs)
    else (skip_codes (length bs) bs >>= skip_lists fuel)

unfoldable pub skip_file : List ℕ → Option (Option (List ℕ))
unfolding skip skip_lists skip_codes
skip_file bs = do i ← skip bs; o ← skip i; r ← skip o; skip_lists (length r) r

-- The outer loop; `size` is `size_`.
unfoldable pub size_loop : ℕ → List ℕ → ℕ → Option ℕ
size_loop zero bs size = none
size_loop (suc fuel) bs size = skip_file bs >>= λ next. elim next [
  | none ↦ some (size + 1)
  | some rest ↦ size_loop fuel rest (size + 1)
]

unfoldable pub calc_size : List ℕ → Option ℕ
unfolding skip_file size_loop
calc_size bs = size_loop (suc (length bs)) bs 0
