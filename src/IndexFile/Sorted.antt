-- ===== src/IndexFile/Sorted.antt =====
-- Words and meta names that are stored in their order come out in that order, as they stand in the index.
use swishxx.Common.{
  ℕ, ◌≡◌, refl, ◌∙◌, sym, true, false, List, [], ◌∷◌, ◌++◌, Bool-cases, inl, inr, All, All-append,
  append-nil, append_assoc,
}
use swishxx.Merge.Strings.{str_less, str_less_irrefl, str_less_trans}
use swishxx.IndexFile.Load.{store, store_all, insert_word, insert_words}

-- `strcmp` is not symmetric.
pub not_below : (a b : List ℕ) → str_less a b ≡ true → str_less b a ≡ false
not_below a b h = elim (Bool-cases (str_less b a)) [
  | inl y ↦ cc (str_less_irrefl a, str_less_trans a b a h y)
  | inr n ↦ n
]

module _ {A : Type 0} (key : A → List ℕ) where
  -- Each key is below those that follow.
  abbrev pub IsAscending : List A → Type 0
  IsAscending [] = Unit
  IsAscending (x ∷ xs) = All (λ y. str_less (key x) (key y) ≡ true) xs × IsAscending xs

  -- All keys of a list are below some others.
  abbrev AreBelow : List A → List A → Type 0
  AreBelow set xs = All (λ x. All (λ y. str_less (key y) (key x) ≡ true) set) xs

  below-snoc :
      (set : List A) (x : A) (xs : List A)
      → AreBelow set xs
      → All (λ y. str_less (key x) (key y) ≡ true) xs
      → AreBelow (set ++ (x ∷ [])) xs
  below-snoc set x [] h k = tt
  below-snoc set x (y ∷ xs) (h, hs) (k, ks) =
      (All-append _ set (x ∷ []) h (k, tt), below-snoc set x xs hs ks)

  below_nothing : (xs : List A) → AreBelow [] xs
  below_nothing [] = tt
  below_nothing (x ∷ xs) = (tt, below_nothing xs)

insert_word-last :
    (w : List ℕ) (set : List (List ℕ))
    → All (λ v. str_less v w ≡ true) set
    → insert_word w set ≡ set ++ (w ∷ [])
unfolding insert_word
insert_word-last w [] h = refl
insert_word-last w (v ∷ set) (h, hs) = rw (not_below v w h, h, insert_word-last w set hs) refl

insert_words-append :
    (ws set : List (List ℕ))
    → AreBelow (λ w. w) set ws
    → IsAscending (λ w. w) ws
    → insert_words ws set ≡ set ++ ws
unfolding insert_words
insert_words-append [] set h k = sym (append-nil set)
insert_words-append (w ∷ ws) set (h, hs) (k, ks) = rw (insert_word-last w set h) (
    insert_words-append ws (set ++ (w ∷ [])) (below-snoc (λ w. w) set w ws hs k) ks
    ∙ append_assoc set (w ∷ []) ws)

pub insert_words-ascending :
    (ws : List (List ℕ)) → IsAscending (λ w. w) ws → insert_words ws [] ≡ ws
insert_words-ascending ws h = insert_words-append ws [] (below_nothing (λ w. w) ws) h

store-last :
    (k : List ℕ) (v : ℕ) (set : List (List ℕ × ℕ))
    → All (λ y. str_less y.0 k ≡ true) set
    → store k v set ≡ set ++ ((k, v) ∷ [])
unfolding store
store-last k v [] h = refl
store-last k v (y ∷ set) (h, hs) = rw (not_below y.0 k h, h, store-last k v set hs) refl

store_all-append :
    (ms set : List (List ℕ × ℕ))
    → AreBelow (λ m. m.0) set ms
    → IsAscending (λ m. m.0) ms
    → store_all ms set ≡ set ++ ms
unfolding store_all
store_all-append [] set h k = sym (append-nil set)
store_all-append (m ∷ ms) set (h, hs) (k, ks) = rw (store-last m.0 m.1 set h) (
    store_all-append ms (set ++ (m ∷ [])) (below-snoc (λ m. m.0) set m ms hs k) ks
    ∙ append_assoc set (m ∷ []) ms)

pub store_all-ascending :
    (ms : List (List ℕ × ℕ)) → IsAscending (λ m. m.0) ms → store_all ms [] ≡ ms
store_all-ascending ms h = store_all-append ms [] (below_nothing (λ m. m.0) ms) h
