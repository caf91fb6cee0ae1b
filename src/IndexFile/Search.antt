-- ===== src/IndexFile/Search.antt =====
-- How src/query.cpp looks up words, stop words and meta names in the mapped index: by `equal_range` and
-- `binary_search` over `index_segment`, with `strcmp` as the order.
use swishxx.Common.{
  ℕ, ◌-◌, ◌<◌, ◌≤◌, ◌≡◌, Bool, true, false, not, ◌&&◌, List, [], Option, none, some, ◌==◌,
  if◌then◌else◌, take,
}
use swishxx.Posting.{File, ◌>>=◌}
use swishxx.Posting.Reader.{skip_word, files}
use swishxx.Merge.Strings.{str_less}
use swishxx.IndexFile.{
  Memory, IndexSegment, isi_word, isi_stop_word, isi_meta_name, set_index_file, entry_at, read_from,
}
use swishxx.IndexFile.Read.{read_text, get_meta_id}

-- The binary search of the C++ library over the numbers below a bound: where a test that holds of the first
-- ones, and of no others, ends to hold.
pub record BinarySearch : Type 0 where
  pub partition_point : (ℕ → Bool) → ℕ → ℕ
  pub finds_partition :
      (test : ℕ → Bool) (n k : ℕ)
      → k ≤ n
      → ((i : ℕ) → i < k → test i ≡ true)
      → ((i : ℕ) → k ≤ i → i < n → test i ≡ false)
      → partition_point test n ≡ k

-- The first `n` characters compared by `strncmp`.
unfoldable pub less_n : ℕ → List ℕ → List ℕ → Bool
less_n n a b = str_less (take n a) (take n b)

module _ (M : Memory) (B : BinarySearch) (less : List ℕ → List ℕ → Bool) where
  abbrev pub string_at : IndexSegment → ℕ → Option (List ℕ)
  string_at s i = entry_at M s i >>= read_text

  abbrev pub is_below : Option (List ℕ) → List ℕ → Bool
  is_below none w = false
  is_below (some v) w = less v w

  abbrev pub is_above : Option (List ℕ) → List ℕ → Bool
  is_above none w = false
  is_above (some v) w = less w v

  -- `equal_range`: from the first string that is not below the word, to the first that is above it.
  unfoldable pub lower : IndexSegment → List ℕ → ℕ
  lower s w = B.partition_point (λ i. is_below (string_at s i) w) s.num_entries

  unfoldable pub upper : IndexSegment → List ℕ → ℕ
  upper s w = B.partition_point (λ i. not (is_above (string_at s i) w)) s.num_entries

  -- `first != end() && !comparator( word, *first )`, of `equal_range` as well as of `binary_search`.
  unfoldable pub is_found : IndexSegment → List ℕ → Bool
  is_found s w = not (lower s w == s.num_entries) && not (is_above (string_at s (lower s w)) w)

  -- What is read at each entry in the range, and nothing if it is empty.
  unfoldable pub find_range :
      {F : Type 0} → (List ℕ → Option F) → IndexSegment → List ℕ → Option (List F)
  find_range read s w =
      if is_found s w then read_from M read s (lower s w) (upper s w - lower s w) else some []

  -- The lists of files of the words that a word of a query stands for.
  unfoldable pub find_words : List ℕ → List ℕ → Option (List (List File))
  find_words file w =
      set_index_file M file isi_word >>= λ s. find_range (λ p. skip_word p >>= files) s w

  unfoldable pub is_stop_word : List ℕ → List ℕ → Option Bool
  is_stop_word file w = set_index_file M file isi_stop_word >>= λ s. some (is_found s w)

  -- The ID of a meta name; `none` inside for Meta_ID_Not_Found.
  unfoldable pub find_meta_id : List ℕ → List ℕ → Option (Option ℕ)
  find_meta_id file w = set_index_file M file isi_meta_name >>= λ s.
      if is_found s w
      then (entry_at M s (lower s w) >>= get_meta_id >>= λ id. some (some id))
      else some none
