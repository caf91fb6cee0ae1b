-- ===== src/Posting/Size.antt =====
-- `file_list::calc_size` marches over the bytes with no decoding; it counts what the iterator meets.
use swishxx.Common.{
  ℕ, zero, suc, ◌+◌, ◌*◌, ◌%◌, ◌^◌, ◌≡◌, refl, ap, ◌∙◌, arith, bit_or, bit_and, List, [], ◌∷◌,
  Option, none, some, ◌==◌, Bool-cases, Option-cases, inl, inr, length,
}
use swishxx.Vlq.{continues, decode, decode_loop}
use swishxx.Posting.{
  stop_marker, meta_name_list_marker, word_pos_list_marker, word_entry_continues_marker, File,
  ◌>>=◌,
}
use swishxx.Posting.Reader.{
  insert_meta, push_back, ignore, read_codes, end_value, at, Iterator, read_lists, read_file,
  advance, begin, collect, files, skip, skip_codes, skip_lists, skip_file, size_loop, calc_size,
}
use mathlib.Core.Option
use mathlib.Core.Path.{fun_ext}

skip-decode_loop :
    (n : ℕ) (bs : List ℕ) → skip bs ≡ Option.map (λ (p : ℕ × List ℕ). p.1) (decode_loop n bs)
unfolding skip decode_loop
skip-decode_loop n [] = refl
skip-decode_loop n (b ∷ bs) = elim (Bool-cases (continues b)) [
  | inl c ↦ rw c (skip-decode_loop (bit_or (n * 128 % 2 ^ 64) (bit_and b 0x7f)) bs)
  | inr d ↦ rw d
]

-- Skipping a code leaves off exactly where decoding it would, on any bytes.
pub skip-decode : (bs : List ℕ) → skip bs ≡ Option.map (λ (p : ℕ × List ℕ). p.1) (decode bs)
unfolding decode
skip-decode bs = skip-decode_loop 0 bs

skip_codes-read_codes :
    (put : List ℕ → ℕ → List ℕ) (fuel : ℕ) (bs acc : List ℕ)
    → skip_codes fuel bs ≡ Option.map (λ (p : List ℕ × List ℕ). p.1) (read_codes put fuel bs acc)
unfolding skip_codes read_codes
skip_codes-read_codes put zero bs acc = refl
skip_codes-read_codes put (suc fuel) [] acc = refl
skip_codes-read_codes put (suc fuel) (b ∷ bs) acc = elim (Bool-cases (b == stop_marker)) [
  | inl s ↦ rw s
  | inr c ↦
      rw (c, skip-decode (b ∷ bs))
        (elim (Option-cases (decode (b ∷ bs))) [
          | inl e ↦ rw e
          | inr ((v, rest), e) ↦ rw e (skip_codes-read_codes put fuel rest (put acc v))
        ])
]

-- The iterator and the counter are at the same place.
abbrev Agree : Option Iterator → Option (Option (List ℕ)) → Type 0
Agree none none = Unit
Agree none (some s) = ⊥
Agree (some it) none = ⊥
Agree (some it) (some none) = it.c ≡ end_value
Agree (some it) (some (some rest)) = it.c ≡ at rest

-- After a list of numbers, whatever is done with them.
after_list :
    (put : List ℕ → ℕ → List ℕ) (fuel : ℕ) (bs acc : List ℕ) (k : List ℕ → List ℕ → Option Iterator)
    (s : List ℕ → Option (Option (List ℕ)))
    → ((rest xs : List ℕ) → Agree (k rest xs) (s rest))
    → Agree (read_codes put fuel bs acc >>= λ p. k p.1 p.0) (skip_codes fuel bs >>= s)
after_list put fuel bs acc k s h =
    rw (skip_codes-read_codes put fuel bs acc) (elim (Option-cases (read_codes put fuel bs acc)) [
      | inl e ↦ rw e tt
      | inr ((xs, rest), e) ↦ rw e (h rest xs)
    ])

read_lists-Agree :
    (fuel : ℕ) (bs : List ℕ) (f : File) → Agree (read_lists fuel bs f) (skip_lists fuel bs)
unfolding read_lists skip_lists
read_lists-Agree zero bs f = tt
read_lists-Agree (suc fuel) [] f = tt
read_lists-Agree (suc fuel) (b ∷ bs) f = elim (Bool-cases (b == stop_marker)) [
  | inl s ↦ rw s refl
  | inr n1 ↦ elim (Bool-cases (b == word_entry_continues_marker)) [
    | inl c ↦ rw (n1, c) refl
    | inr n2 ↦ elim (Bool-cases (b == meta_name_list_marker)) [
      | inl m ↦
          rw (n1, n2, m)
            (after_list insert_meta (length bs) bs f.meta_ids
              (λ rest xs. read_lists fuel rest (record f { meta_ids = xs })) (skip_lists fuel)
              (λ rest xs. read_lists-Agree fuel rest (record f { meta_ids = xs })))
      | inr n3 ↦ elim (Bool-cases (b == word_pos_list_marker)) [
        | inl w ↦
            rw (n1, n2, n3, w)
              (after_list push_back (length bs) bs f.pos_deltas
                (λ rest xs. read_lists fuel rest (record f { pos_deltas = xs })) (skip_lists fuel)
                (λ rest xs. read_lists-Agree fuel rest (record f { pos_deltas = xs })))
        | inr n4 ↦
            rw (n1, n2, n3, n4)
              (after_list ignore (length bs) bs [] (λ rest xs. read_lists fuel rest f)
                (skip_lists fuel) (λ rest xs. read_lists-Agree fuel rest f))
      ]
    ]
  ]
]

-- Three numbers, then lists.
read_file-Agree : (bs : List ℕ) → Agree (read_file bs) (skip_file bs)
unfolding read_file skip_file
read_file-Agree bs = rw (skip-decode bs) (elim (Option-cases (decode bs)) [
  | inl e ↦ rw e tt
  | inr ((i, r1), e) ↦ rw e (
      rw (skip-decode r1) (elim (Option-cases (decode r1)) [
        | inl e ↦ rw e tt
        | inr ((o, r2), e) ↦ rw e (
            rw (skip-decode r2) (elim (Option-cases (decode r2)) [
              | inl e ↦ rw e tt
              | inr ((r, r3), e) ↦ rw e (read_lists-Agree (length r3) r3 _)
            ]))
      ]))
])

-- The files that a loop from `bs` on meets, in at most `fuel` rounds.
abbrev files_from : ℕ → List ℕ → Option (List File)
files_from fuel bs = read_file bs >>= collect (suc fuel)

plus_length : ℕ → Option (List File) → Option ℕ
plus_length n = Option.map (λ fs. n + length fs)

-- The iterator at the last file, and in front of another one.
collect_end :
    (k : ℕ) (it : Iterator) → it.c ≡ end_value → collect (suc (suc k)) it ≡ some (it.v ∷ [])
unfolding collect advance
collect_end k it e = rw e

collect_at :
    (k : ℕ) (it : Iterator) (rest : List ℕ)
    → it.c ≡ at rest
    → collect (suc k) it ≡ (read_file rest >>= λ next. collect k next >>= λ fs. some (it.v ∷ fs))
unfolding collect advance
collect_at k it rest e = rw e

plus_length-cons :
    (n k : ℕ) (v : File) (o : Option Iterator)
    → plus_length n (o >>= λ next. collect k next >>= λ fs. some (v ∷ fs))
      ≡ plus_length (n + 1) (o >>= collect k)
unfolding plus_length
plus_length-cons n k v none = refl
plus_length-cons n k v (some it) = elim (Option-cases (collect k it)) [
  | inl e ↦ rw e
  | inr (fs, e) ↦ rw e (ap some (omega arith))
]

-- One round: what the counter does next, and what the loop over the iterator does.
abbrev round : ℕ → ℕ → Option (List ℕ) → Option ℕ
round fuel n next = elim next [ none ↦ some (n + 1) | some rest ↦ size_loop fuel rest (n + 1) ]

round-collect :
    (fuel n : ℕ) (o : Option Iterator) (s : Option (Option (List ℕ)))
    → Agree o s
    → ((rest : List ℕ) → size_loop fuel rest (n + 1) ≡ plus_length (n + 1) (files_from fuel rest))
    → (s >>= round fuel n) ≡ plus_length n (o >>= collect (suc (suc fuel)))
round-collect fuel n none none h ih = unfold plus_length in refl
round-collect fuel n none (some s) h ih = absurd h
round-collect fuel n (some it) none h ih = absurd h
round-collect fuel n (some it) (some none) h ih =
    rw (collect_end fuel it h) (unfold plus_length in refl)
round-collect fuel n (some it) (some (some rest)) h ih =
    rw (collect_at (suc fuel) it rest h, plus_length-cons n (suc fuel) it.v (read_file rest))
      (ih rest)

no_rounds :
    (n : ℕ) (o : Option Iterator) (s : Option (Option (List ℕ)))
    → Agree o s
    → none ≡ plus_length n (o >>= collect 1)
no_rounds n none s h = unfold plus_length in refl
no_rounds n (some it) none h = absurd h
no_rounds n (some it) (some none) h = unfold plus_length collect advance in rw h
no_rounds n (some it) (some (some rest)) h =
    unfold plus_length collect advance in
    rw h (elim (Option-cases (read_file rest)) [ inl e ↦ rw e | inr (x, e) ↦ rw e ])

size_loop-files_from :
    (fuel : ℕ) (bs : List ℕ) (n : ℕ) → size_loop fuel bs n ≡ plus_length n (files_from fuel bs)
unfolding size_loop
size_loop-files_from zero bs n = no_rounds n (read_file bs) (skip_file bs) (read_file-Agree bs)
size_loop-files_from (suc fuel) bs n =
    round-collect fuel n (read_file bs) (skip_file bs) (read_file-Agree bs)
      (λ rest. size_loop-files_from fuel rest (n + 1))

-- On any bytes, well formed or not, the size that is computed with no decoding is the number
-- of files that a loop over the list meets, and it is not computed where the loop leaves the bytes.
pub calc_size-files : (bs : List ℕ) → calc_size bs ≡ Option.map length (files bs)
unfolding calc_size files begin advance plus_length
calc_size-files bs =
    size_loop-files_from (suc (length bs)) bs 0
    ∙ ap (λ (g : List File → ℕ). Option.map g (files_from (suc (length bs)) bs))
        (fun_ext (λ fs. omega arith))
