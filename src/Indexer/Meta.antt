-- ===== src/Indexer/Meta.antt =====
-- `indexer::find_meta` of src/indexer.cpp: the IDs of meta names.
use swishxx.Common.{
  ℕ, suc, ◌+◌, ◌≡◌, refl, arith, Bool, true, List, [], ◌∷◌, ◌++◌, Option, none, some, ◌==◌,
  if◌then◌else◌, Bool-cases, Option-cases, inl, inr, ◌∙◌, length,
}
use swishxx.Stem.{list_eq}
use swishxx.Posting.{to_short, meta_id_none}

-- `meta_name_id_map`, the names in the order in which they were added.
abbrev pub MetaNames : Type 0
MetaNames = List (List ℕ × ℕ)

-- The names to exclude, and those to include with what each is reassigned to, if any were given.
pub record MetaOptions : Type 0 where
  pub is_excluded : List ℕ → Bool
  pub includes_any : Bool
  pub include : List ℕ → Option (List ℕ)

unfoldable pub lookup : List ℕ → MetaNames → Option ℕ
unfolding list_eq
lookup name [] = none
lookup name (p ∷ ps) = if list_eq name p.0 then some p.1 else lookup name ps

-- The name to look up; `none` for a name that is left out.
unfoldable pub reassigned : MetaOptions → List ℕ → Option (List ℕ)
reassigned o name =
    if o.is_excluded name then none else if o.includes_any then o.include name else some name

-- The lookup, and the new ID of a name that is not found.
unfoldable pub add_meta : List ℕ → MetaNames → ℕ × MetaNames
unfolding lookup
add_meta name names = elim (lookup name names) [
  | some id ↦ (id, names)
  | none ↦ (to_short (length names), names ++ ((name, to_short (length names)) ∷ []))
]

unfoldable pub find_meta : MetaOptions → List ℕ → MetaNames → ℕ × MetaNames
unfolding reassigned add_meta
find_meta o name names = elim (reassigned o name) [
  | none ↦ (meta_id_none, names)
  | some name' ↦ add_meta name' names
]

list_eq_self : (w : List ℕ) → list_eq w w ≡ true
unfolding list_eq
list_eq_self [] = refl
list_eq_self (c ∷ w) = let own : (c == c) ≡ true = ground arith in rw own (list_eq_self w)

lookup-added :
    (name : List ℕ) (id : ℕ) (names : MetaNames)
    → lookup name names ≡ none
    → lookup name (names ++ ((name, id) ∷ [])) ≡ some id
unfolding lookup
lookup-added name id [] h = rw (list_eq_self name) refl
lookup-added name id (p ∷ ps) h = elim (Bool-cases (list_eq name p.0)) [
  | inl y ↦ ground (arith, y)
  | inr n ↦ rw n (lookup-added name id ps (ground arith))
]

add_meta-new :
    (name : List ℕ) (names : MetaNames)
    → lookup name names ≡ none
    → add_meta name names
      ≡ (to_short (length names), names ++ ((name, to_short (length names)) ∷ []))
unfolding add_meta
add_meta-new name names e = rw (e, add_meta) refl

add_meta-known :
    (name : List ℕ) (names : MetaNames) (id : ℕ)
    → lookup name names ≡ some id
    → add_meta name names ≡ (id, names)
unfolding add_meta
add_meta-known name names id e = rw (e, add_meta) refl

add_meta-again :
    (name : List ℕ) (names : MetaNames)
    → add_meta name (add_meta name names).1 ≡ add_meta name names
add_meta-again name names = elim (Option-cases (lookup name names)) [
  | inl e ↦
      let id = to_short (length names) in
      rw (add_meta-new name names e)
        (add_meta-known name (names ++ ((name, id) ∷ [])) id (lookup-added name id names e))
  | inr (id, e) ↦ rw (add_meta-known name names id e) (add_meta-known name names id e)
]

find_meta-left_out :
    (o : MetaOptions) (name : List ℕ)
    → reassigned o name ≡ none
    → (names : MetaNames) → find_meta o name names ≡ (meta_id_none, names)
unfolding find_meta
find_meta-left_out o name e names = rw (e, find_meta) refl

find_meta-named :
    (o : MetaOptions) (name name' : List ℕ)
    → reassigned o name ≡ some name'
    → (names : MetaNames) → find_meta o name names ≡ add_meta name' names
unfolding find_meta
find_meta-named o name name' e names = rw (e, find_meta) refl

-- A meta name keeps its ID: looked up again, in the map that the first lookup leaves, it has the same ID
-- and the map stays as it is.
pub find_meta-again :
    (o : MetaOptions) (name : List ℕ) (names : MetaNames)
    → find_meta o name (find_meta o name names).1 ≡ find_meta o name names
find_meta-again o name names = elim (Option-cases (reassigned o name)) [
  | inl e ↦ rw (find_meta-left_out o name e names) (find_meta-left_out o name e names)
  | inr (name', e) ↦
      rw (find_meta-named o name name' e names)
        (find_meta-named o name name' e (add_meta name' names).1 ∙ add_meta-again name' names)
]

-- The IDs count the names, from the first one on.
abbrev pub AreNumberedFrom : ℕ → MetaNames → Type 0
AreNumberedFrom i [] = Unit
AreNumberedFrom i (p ∷ ps) = (p.1 ≡ to_short i) × AreNumberedFrom (suc i) ps

numbered-added :
    (i : ℕ) (name : List ℕ) (names : MetaNames)
    → AreNumberedFrom i names
    → AreNumberedFrom i (names ++ ((name, to_short (i + length names)) ∷ []))
numbered-added i name [] h = (omega arith, tt)
numbered-added i name (p ∷ ps) (e, h) =
    let same : i + suc (length ps) ≡ suc i + length ps = omega arith in
    rw same (e, numbered-added (suc i) name ps h)

add_meta-AreNumberedFrom :
    (name : List ℕ) (names : MetaNames)
    → AreNumberedFrom 0 names
    → AreNumberedFrom 0 (add_meta name names).1
unfolding add_meta
add_meta-AreNumberedFrom name names h = elim (Option-cases (lookup name names)) [
  | inl none_yet ↦
      rw (none_yet, add_meta)
        (let same : length names ≡ 0 + length names = omega arith in
          rw same (numbered-added 0 name names h))
  | inr (id, found) ↦ rw (found, add_meta) h
]

-- The IDs of the meta names stay the numbers from 0 on, each once, as shorts.
pub find_meta-AreNumberedFrom :
    (o : MetaOptions) (name : List ℕ) (names : MetaNames)
    → AreNumberedFrom 0 names
    → AreNumberedFrom 0 (find_meta o name names).1
unfolding find_meta
find_meta-AreNumberedFrom o name names h = elim (Option-cases (reassigned o name)) [
  | inl out ↦ rw (out, find_meta) h
  | inr (name', e) ↦ rw (e, find_meta) (add_meta-AreNumberedFrom name' names h)
]
