-- ===== src/OptionStream/Origin.antt =====
-- The specifications that the loops over them find are in the table.
use swishxx.Common.{
  ℕ, ◌≡◌, refl, sym, Bool, true, false, List, [], ◌∷◌, Option, none, some, ◌==◌, if◌then◌else◌,
  Bool-cases, inl, inr, ◌⊎◌, length,
}
use swishxx.OptionStream.Specs.{Spec}
use swishxx.OptionStream.{find_short, is_prefix, Match, not_found, many_found, found, match_long}

abbrev pub IsIn : Spec → List Spec → Type 0
IsIn s [] = ⊥
IsIn s (t ∷ specs) = (t ≡ s) ⊎ IsIn s specs

pub find_short-IsIn :
    (specs : List Spec) (c : ℕ) (s : Spec) → find_short specs c ≡ some s → IsIn s specs
find_short-IsIn [] c s h = absurd (cc (h))
find_short-IsIn (t ∷ specs) c s h = go (c == t.short_name) (find_short-IsIn specs c s) h
  where
    go :
        (b : Bool)
        → (find_short specs c ≡ some s → IsIn s specs)
        → (if b then some t else find_short specs c) ≡ some s
        → IsIn s (t ∷ specs)
    go true k e = inl (cc (e))
    go false k e = inr (k e)

-- Where a specification that is matched is from.
abbrev pub Comes : List Spec → Option Spec → Match → Type 0
Comes specs partial (found s) = IsIn s specs ⊎ (partial ≡ some s)
Comes specs partial _ = Unit

Comes-later :
    (t : Spec) (specs : List Spec) (partial : Option Spec) (r : Match)
    → Comes specs partial r
    → Comes (t ∷ specs) partial r
Comes-later t specs partial (found s) (inl m) = inl (inr m)
Comes-later t specs partial (found s) (inr e) = inr e
Comes-later t specs partial not_found h = tt
Comes-later t specs partial many_found h = tt

Comes-now :
    (t : Spec) (specs : List Spec) (partial : Option Spec) (r : Match)
    → Comes specs (some t) r
    → Comes (t ∷ specs) partial r
Comes-now t specs partial (found s) (inl m) = inl (inr m)
Comes-now t specs partial (found s) (inr e) = inl (inl (cc (e)))
Comes-now t specs partial not_found h = tt
Comes-now t specs partial many_found h = tt

pub match_long-Comes :
    (specs : List Spec) (name : List ℕ) (partial : Option Spec)
    → Comes specs partial (match_long specs name partial)
unfolding match_long
match_long-Comes [] name none = tt
match_long-Comes [] name (some s) = inr refl
match_long-Comes (t ∷ specs) name partial = elim (Bool-cases (is_prefix name t.long_name)) [
  | inr n ↦ rw (n, match_long) (Comes-later t specs partial _ (match_long-Comes specs name partial))
  | inl y ↦ elim (Bool-cases (length t.long_name == length name)) [
    | inl e ↦ rw (y, e, match_long) (inl (inl refl))
    | inr m ↦ rw (y, m, match_long) (go partial (match_long-Comes specs name (some t)))
  ]
]
  where
    go :
        (p : Option Spec)
        → Comes specs (some t) (match_long specs name (some t))
        → Comes
            (t ∷ specs)
            p
            (elim p [ none ↦ match_long specs name (some t) | some u ↦ many_found ])
    go none h = Comes-now t specs none _ h
    go (some u) h = tt

pub match_long-IsIn :
    (specs : List Spec) (name : List ℕ) (s : Spec)
    → match_long specs name none ≡ found s
    → IsIn s specs
match_long-IsIn specs name s e =
    go (match_long specs name none) (match_long-Comes specs name none) e
  where
    go : (r : Match) → Comes specs none r → r ≡ found s → IsIn s specs
    go (found t) (inl m) e = let same : t ≡ s = cc (e) in rw (sym same) m
    go (found t) (inr n) e = absurd (cc (n))
    go not_found h e = absurd (cc (e))
    go many_found h e = absurd (cc (e))
