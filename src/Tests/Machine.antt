-- ===== src/Tests/Machine.antt =====
-- A little-endian machine, and a binary search that takes one step after the other.
use swishxx.Common.{
  ℕ, zero, suc, ◌+◌, ◌*◌, ◌/◌, ◌%◌, ◌^◌, ◌<◌, ◌≡◌, refl, ap, true, false, Bool, ltb, if◌then◌else◌,
  Bool-cases, inl, inr, ◌≤◌, arith, List, [], ◌∷◌, ◌++◌, Option, none, some, length,
}
use swishxx.Posting.{◌>>=◌}
use swishxx.IndexFile.{Memory}
use swishxx.IndexFile.Search.{BinarySearch}

unfoldable pub le_bytes : ℕ → ℕ → List ℕ
le_bytes zero v = []
le_bytes (suc k) v = v % 256 ∷ le_bytes k (v / 256)

unfoldable pub le_value : ℕ → List ℕ → Option ℕ
le_value zero bs = some 0
le_value (suc k) [] = none
le_value (suc k) (b ∷ bs) = le_value k bs >>= λ v. some (b + 256 * v)

pub length-le_bytes : (k v : ℕ) → length (le_bytes k v) ≡ k
unfolding le_bytes
length-le_bytes zero v = refl
length-le_bytes (suc k) v = ap suc (length-le_bytes k (v / 256))

pub le_value-le_bytes :
    (k v : ℕ) (rest : List ℕ) → v < 256 ^ k → le_value k (le_bytes k v ++ rest) ≡ some v
unfolding le_bytes le_value
le_value-le_bytes zero v rest h = ap some (omega arith)
le_value-le_bytes (suc k) v rest h =
    let whole : v % 256 + 256 * (v / 256) ≡ v = omega arith in
    rw (le_value-le_bytes k (v / 256) rest (omega arith), whole) refl

-- Before anything is stored, arrays hold 77.
unfoldable pub garbage : ℕ → List ℕ
garbage zero = []
garbage (suc n) = 77 ∷ garbage n

pub length-garbage : (n : ℕ) → length (garbage n) ≡ n
unfolding garbage
length-garbage zero = refl
length-garbage (suc n) = ap suc (length-garbage n)

unfoldable pub little_endian : Memory
little_endian = record {
  bytes_of = le_bytes 8;
  value_at = le_value 8;
  new_array = garbage;
  bytes_are_eight = length-le_bytes 8;
  bytes_read_back = le_value-le_bytes 8;
  array_is_new = length-garbage;
}

-- A binary search by one step after the other.
unfoldable pub scan : (ℕ → Bool) → ℕ → ℕ → ℕ
scan test i zero = i
scan test i (suc left) = let later = scan test (suc i) left in if test i then later else i

pub scan_finds :
    (test : ℕ → Bool) (left i n k : ℕ)
    → n ≡ i + left
    → i ≤ k
    → k ≤ n
    → ((j : ℕ) → j < k → test j ≡ true)
    → ((j : ℕ) → k ≤ j → j < n → test j ≡ false)
    → scan test i left ≡ k
unfolding scan
scan_finds test zero i n k e l u before behind = omega arith
scan_finds test (suc left) i n k e l u before behind = elim (Bool-cases (ltb i k)) [
  | inl y ↦
      rw (before i (ground (arith, y)))
        (scan_finds test left (suc i) n k (omega arith) (ground (arith, y)) u before behind)
  | inr o ↦
      let here : i ≡ k = ground (arith, o, l) in rw (behind i (omega arith) (omega arith)) here
]

unfoldable pub linear : BinarySearch
linear = record {
  partition_point = λ test n. scan test 0 n;
  finds_partition = λ test n k. scan_finds test n 0 n k (omega arith) (omega arith);
}
