-- ===== src/Eval/Near.antt =====
-- src/query_node.cpp: are two words near each other in a file? The loop goes through the positions of both.
use swishxx.Common.{
  ℕ, zero, suc, ◌+◌, ◌-◌, ◌%◌, ◌^◌, Bool, true, false, ◌||◌, List, [], ◌∷◌, ltb, leb, ◌==◌,
  if◌then◌else◌, length,
}
use swishxx.Posting.{File, to_unsigned}

-- `int const delta = pos[1] - pos[0]`, a 32-bit pattern.
abbrev pub delta_of : ℕ → ℕ → ℕ
delta_of pos0 pos1 = (pos1 + (2 ^ 32 - pos0)) % 2 ^ 32

-- `pjl_abs`
abbrev pub pjl_abs : ℕ → ℕ
pjl_abs n = if ltb n (2 ^ 31) then n else 2 ^ 32 - n

-- `delta < 1`
abbrev pub is_below_one : ℕ → Bool
is_below_one delta = delta == 0 || leb (2 ^ 31) delta

-- `pos[i] += ...`
abbrev pub next_pos : ℕ → ℕ → ℕ
next_pos pos d = (pos + to_unsigned d) % 2 ^ 32

-- The loop `while ( true )`; the lists are the deltas behind the two `pdi`s. A round uses up a delta.
unfoldable pub near_loop : ℕ → ℕ → ℕ → ℕ → List ℕ → List ℕ → Bool
near_loop zero near pos0 pos1 ds0 ds1 = false
near_loop (suc fuel) near pos0 pos1 ds0 ds1 =
    let delta = delta_of pos0 pos1 in
    elim (leb (pjl_abs delta) near) [
      | true ↦ true
      | false ↦ (elim (is_below_one delta) [
        | true ↦ (elim ds1 [
          | [] ↦ false
          | d ∷ ds ↦ near_loop fuel near pos0 (next_pos pos1 d) ds0 ds
        ])
        | false ↦ (elim ds0 [
          | [] ↦ false
          | d ∷ ds ↦ near_loop fuel near (next_pos pos0 d) pos1 ds ds1
        ])
      ])
    ]

-- With the first positions, `pos_deltas_[0]`: a file without positions is one of an index without them,
-- where the read is behind the end; no word is near it here.
unfoldable pub is_near : ℕ → File → File → Bool
unfolding near_loop
is_near near f0 f1 = elim f0.pos_deltas [
  | [] ↦ false
  | p0 ∷ ds0 ↦ (elim f1.pos_deltas [
    | [] ↦ false
    | p1 ∷ ds1 ↦
        near_loop (suc (length ds0 + length ds1)) near (to_unsigned p0) (to_unsigned p1) ds0 ds1
  ])
]
