-- ===== src/IndexFile/Names.antt =====
-- What a query finds among the stop words and the meta names of an index, if they ascend.
use swishxx.Common.{
  ℕ, ◌≡◌, refl, arith, Bool, true, false, ◌||◌, List, [], ◌∷◌, map, Option, none, some,
  if◌then◌else◌, Option-cases, Bool-cases, inl, inr, All,
}
use swishxx.Posting.{◌>>=◌}
use swishxx.Stem.{list_eq}
use swishxx.Merge.Strings.{str_less}
use swishxx.IndexFile.{Memory, isi_stop_word, isi_meta_name, read_segment}
use swishxx.IndexFile.Read.{read_text, get_meta_id, read_meta_name}
use swishxx.IndexFile.Loops.{read_segment-opened, read_segment-map, read_from-entry}
use swishxx.IndexFile.Search.{BinarySearch, is_stop_word, find_meta_id}
use swishxx.IndexFile.Sorted.{IsAscending}
use swishxx.IndexFile.Range.{like}
use swishxx.IndexFile.Found.{range_like}
use swishxx.IndexFile.Orders.{str_less-IsWeakOrder, str_less-IsInOrder}
use swishxx.IndexFile.Lookup.{entries_of, like-entries_of}

-- A string by itself is an entry.
abbrev as_entry : List ℕ → List ℕ × Unit {0}
as_entry t = (t, tt)

abbrev read_entry : List ℕ → Option (List ℕ × Unit {0})
read_entry p = read_text p >>= λ t. some (as_entry t)

abbrev pub is_member : List ℕ → List (List ℕ) → Bool
is_member w [] = false
is_member w (v ∷ vs) = list_eq w v || is_member w vs

as_entry-IsAscending :
    (ts : List (List ℕ)) → IsAscending (λ t. t) ts → IsAscending (λ e. e.0) (map as_entry ts)
as_entry-IsAscending [] h = tt
as_entry-IsAscending (t ∷ ts) (h, hs) = (all_above ts h, as_entry-IsAscending ts hs)
  where
    all_above :
        (us : List (List ℕ))
        → All (λ u. str_less t u ≡ true) us
        → All (λ (e : List ℕ × Unit {0}). str_less t e.0 ≡ true) (map as_entry us)
    all_above [] h = tt
    all_above (u ∷ us) (h, hs) = (h, all_above us hs)

abbrev has_any : {A : Type 0} → List A → Bool
has_any [] = false
has_any (x ∷ xs) = true

entries_of-member :
    (w : List ℕ) (ts : List (List ℕ))
    → has_any (entries_of (λ v. v) w (map as_entry ts)) ≡ is_member w ts
unfolding entries_of
entries_of-member w [] = refl
entries_of-member w (t ∷ ts) = elim (Bool-cases (list_eq w t)) [
  | inl y ↦ rw y refl
  | inr n ↦ rw n (entries_of-member w ts)
]

-- The ID of the first of some names that is the word.
abbrev pub value_of : List ℕ → List (List ℕ × ℕ) → Option ℕ
value_of w [] = none
value_of w (m ∷ ms) = if list_eq w m.0 then some m.1 else value_of w ms

abbrev first_value : List (List ℕ × ℕ) → Option ℕ
first_value [] = none
first_value (m ∷ ms) = some m.1

entries_of-value :
    (w : List ℕ) (ms : List (List ℕ × ℕ)) → first_value (entries_of (λ v. v) w ms) ≡ value_of w ms
unfolding entries_of
entries_of-value w [] = refl
entries_of-value w (m ∷ ms) = elim (Bool-cases (list_eq w m.0)) [
  | inl y ↦ rw y refl
  | inr n ↦ rw n (entries_of-value w ms)
]

exact :
    {V : Type 0} (w : List ℕ) (es : List (List ℕ × V))
    → like str_less w es ≡ entries_of (λ v. v) w es
exact w es = like-entries_of str_less (λ v. v) w (λ a b. refl) es

read_entry-text :
    (p : List ℕ) (e : List ℕ × Unit {0}) → read_entry p ≡ some e → read_text p ≡ some e.0
read_entry-text p e h = elim (Option-cases (read_text p)) [
  | inl out ↦ cc (rw out at h)
  | inr (t, a) ↦ let same : e ≡ as_entry t = cc (rw a at h) in rw (a, same) refl
]

pub is_stop_word-member :
    (M : Memory) (B : BinarySearch) (file : List ℕ) (ts : List (List ℕ)) (w : List ℕ)
    → read_segment M read_text file isi_stop_word ≡ some ts
    → IsAscending (λ t. t) ts
    → is_stop_word M B str_less file w ≡ some (is_member w ts)
unfolding is_stop_word
is_stop_word-member M B file ts w h ascend =
    let es = map as_entry ts in
    let as_entries : read_segment M read_entry file isi_stop_word ≡ some es =
      read_segment-map M read_text read_entry as_entry file isi_stop_word ts (all_read ts) h in
    let (s, found, loop) = read_segment-opened M read_entry file isi_stop_word es as_entries in
    let sorted = str_less-IsInOrder es (as_entry-IsAscending ts ascend) in
    rw (found, ← entries_of-member w ts, ← exact w es)
      (elim (range_like M B str_less str_less-IsWeakOrder read_entry read_entry-text s es loop
        sorted w) [
          | inl (out, nothing) ↦ rw (out, nothing) refl
          | inr (e, rest, there, g, first) ↦ rw (there, first) refl
        ])
  where
    all_read :
        (ts : List (List ℕ))
        → All (λ t. (p : List ℕ) → read_text p ≡ some t → read_entry p ≡ some (as_entry t)) ts
    all_read [] = tt
    all_read (t ∷ ts) = (λ p e. rw e refl, all_read ts)

read_meta_name-parts :
    (p : List ℕ) (m : List ℕ × ℕ)
    → read_meta_name p ≡ some m
    → (read_text p ≡ some m.0) × (get_meta_id p ≡ some m.1)
unfolding read_meta_name
read_meta_name-parts p m h = elim (Option-cases (read_text p)) [
  | inl out ↦ cc (rw out at h)
  | inr (t, a) ↦ elim (Option-cases (get_meta_id p)) [
    | inl out ↦ cc (rw (a, out) at h)
    | inr (id, b) ↦ let same : m ≡ (t, id) = cc (rw (a, b) at h) in rw (same, a, b) (refl, refl)
  ]
]

id_there :
    (o : Option (List ℕ)) (m : List ℕ × ℕ)
    → (o >>= read_meta_name) ≡ some m
    → (o >>= get_meta_id) ≡ some m.1
id_there none m h = cc h
id_there (some p) m h = (read_meta_name-parts p m h).1

pub find_meta_id-value :
    (M : Memory) (B : BinarySearch) (file : List ℕ) (ms : List (List ℕ × ℕ)) (w : List ℕ)
    → read_segment M read_meta_name file isi_meta_name ≡ some ms
    → IsAscending (λ m. m.0) ms
    → find_meta_id M B str_less file w ≡ some (value_of w ms)
unfolding find_meta_id
find_meta_id-value M B file ms w h ascend =
    let (s, found, loop) = read_segment-opened M read_meta_name file isi_meta_name ms h in
    let sorted = str_less-IsInOrder ms ascend in
    rw (found, ← entries_of-value w ms, ← exact w ms)
      (elim (range_like M B str_less str_less-IsWeakOrder read_meta_name
        (λ p m e. (read_meta_name-parts p m e).0) s ms loop sorted w) [
          | inl (out, nothing) ↦ rw (out, nothing) refl
          | inr (e, rest, there, g, first) ↦
              let at_first =
                read_from-entry M read_meta_name s s.num_entries 0 ms _ e _ loop g (omega arith) in
              rw (there, first, id_there _ e at_first) refl
        ])
