-- ===== src/Common/Places.antt =====
-- Lists and the places in them: what `take`, `drop` and `get_elem?` give.
use swishxx.Common.Lists.{length, get_elem?, get_or, take, drop, All}
use Prim.Native.Nat.{ℕ, zero, suc, ◌+◌, ◌≤◌, ◌<◌}
use mathlib.Core.Path.{◌≡◌, refl, ap, subst}
use mathlib.Core.Option.{some}
use mathlib.Core.List.{List, [], ◌∷◌, ◌++◌, map}
use native.Mathlib.Omega.{arith}

pub length-map : {A B : Type 0} (f : A → B) (xs : List A) → length (map f xs) ≡ length xs
length-map f [] = refl
length-map f (x ∷ xs) = ap suc (length-map f xs)

pub take_all : (xs : List ℕ) → take (length xs) xs ≡ xs
take_all [] = refl
take_all (x ∷ xs) = rw (take_all xs) refl

pub drop_all : {A : Type 0} (xs : List A) (n : ℕ) → length xs ≤ n → drop n xs ≡ []
drop_all [] zero h = refl
drop_all [] (suc n) h = refl
drop_all (x ∷ xs) zero h = absurd (omega arith)
drop_all (x ∷ xs) (suc n) h = drop_all xs n (omega arith)

pub drop_further : (a b : List ℕ) (n m : ℕ) → n ≡ length a + m → drop n (a ++ b) ≡ drop m b
drop_further [] b n m h = let e : n ≡ m = omega arith in rw e refl
drop_further (x ∷ a) b zero m h = absurd (omega arith)
drop_further (x ∷ a) b (suc n) m h = drop_further a b n m (omega arith)

pub take-nil : {A : Type 0} (k : ℕ) → Path (List A) (take k []) []
take-nil zero = refl
take-nil (suc k) = refl

-- A part of a list that is not empty begins with the element at its place.
pub take-drop_first :
    {A : Type 0} (xs : List A) (k n : ℕ) (a : A)
    → get_elem? xs k ≡ some a
    → 0 < n
    → (rest : List A) × (take n (drop k xs) ≡ a ∷ rest)
take-drop_first [] k n a g h = cc g
take-drop_first (x ∷ xs) zero zero a g h = absurd (omega arith)
take-drop_first (x ∷ xs) zero (suc n) a g h = let same : x ≡ a = cc g in (take n xs, rw same refl)
take-drop_first (x ∷ xs) (suc k) n a g h = take-drop_first xs k n a g h

pub get_elem?-bound :
    {A : Type 0} (xs : List A) (i : ℕ) (a : A) → get_elem? xs i ≡ some a → i < length xs
get_elem?-bound [] i a h = cc h
get_elem?-bound (x ∷ xs) zero a h = omega arith
get_elem?-bound (x ∷ xs) (suc i) a h = omega (arith, get_elem?-bound xs i a h)

pub get_elem?-some :
    {A : Type 0} (xs : List A) (i : ℕ) → i < length xs → (a : A) × (get_elem? xs i ≡ some a)
get_elem?-some [] i h = absurd (omega arith)
get_elem?-some (x ∷ xs) zero h = (x, refl)
get_elem?-some (x ∷ xs) (suc i) h = get_elem?-some xs i (omega arith)

pub get_elem?-get_or :
    {A : Type 0} (xs : List A) (i : ℕ) (d : A)
    → i < length xs
    → get_elem? xs i ≡ some (get_or xs i d)
get_elem?-get_or [] i d h = absurd (omega arith)
get_elem?-get_or (x ∷ xs) zero d h = refl
get_elem?-get_or (x ∷ xs) (suc i) d h = get_elem?-get_or xs i d (omega arith)

pub get_elem?-append_old :
    {A : Type 0} (xs ys : List A) (i : ℕ) (a : A)
    → get_elem? xs i ≡ some a
    → get_elem? (xs ++ ys) i ≡ some a
get_elem?-append_old [] ys i a e = cc e
get_elem?-append_old (x ∷ xs) ys zero a e = e
get_elem?-append_old (x ∷ xs) ys (suc i) a e = get_elem?-append_old xs ys i a e

pub get_elem?-append_new :
    {A : Type 0} (xs ys : List A) (a : A) → get_elem? (xs ++ (a ∷ ys)) (length xs) ≡ some a
get_elem?-append_new [] ys a = refl
get_elem?-append_new (x ∷ xs) ys a = get_elem?-append_new xs ys a

pub all_at :
    {A : Type 0} (P : A → Type 0) (es : List A) (i : ℕ) (e : A)
    → All P es
    → get_elem? es i ≡ some e
    → P e
all_at P [] i e h g = cc g
all_at P (x ∷ es) zero e (h, hs) g = let same : x ≡ e = cc g in subst P same h
all_at P (x ∷ es) (suc i) e (h, hs) g = all_at P es i e hs g

pub All-imp :
    {A : Type 0} (P Q : A → Type 0) → ((a : A) → P a → Q a) → (xs : List A) → All P xs → All Q xs
All-imp P Q f [] h = tt
All-imp P Q f (x ∷ xs) (h, hs) = (f x h, All-imp P Q f xs hs)
