-- ===== src/Query/Ensures.antt =====
-- What a part of the parser leaves behind if it succeeds; it may fail, and does nothing else.
use swishxx.Common.{Bool, true, false, if◌then◌else◌, ℕ, ◌+◌, ◌-◌, ◌≤◌, ◌<◌, ◌≡◌, arith, length}
use swishxx.Token.{Token}
use swishxx.Token.Stream.{left, weight, get_takes, put_back_adds}
use swishxx.Query.Parser.{
  QArgs, Result, ok, fail, fault, internal, stuck, M, ◌>>=◌, next_token, put_back,
}

abbrev pub Ensures {ℓ} : {A : Type ℓ} → (A → QArgs → Type 0) → Result A → Type 0
Ensures P (ok a q) = P a q
Ensures P fail = Unit
Ensures P fault = ⊥
Ensures P internal = ⊥
Ensures P stuck = ⊥

bind_result {ℓ κ} :
    {A : Type ℓ} {B : Type κ} (P : A → QArgs → Type 0) (R : B → QArgs → Type 0) (r : Result A)
    (f : A → M B) (q0 : QArgs)
    → Ensures P r
    → ((a : A) (q : QArgs) → P a q → Ensures R (f a q))
    → Ensures R (((λ q. r) >>= f) q0)
bind_result P R (ok a q) f q0 h k = k a q h
bind_result P R fail f q0 h k = tt
bind_result P R fault f q0 h k = absurd h
bind_result P R internal f q0 h k = absurd h
bind_result P R stuck f q0 h k = absurd h

-- The rule for a sequence.
pub bind_Ensures {ℓ κ} :
    {A : Type ℓ} {B : Type κ} (P : A → QArgs → Type 0) (R : B → QArgs → Type 0) (m : M A)
    (f : A → M B) (q : QArgs)
    → Ensures P (m q)
    → ((a : A) (q' : QArgs) → P a q' → Ensures R (f a q'))
    → Ensures R ((m >>= f) q)
bind_Ensures P R m f q h k = bind_result P R (m q) f q h k

-- A weaker postcondition.
pub weaken {ℓ} :
    {A : Type ℓ} (P R : A → QArgs → Type 0) (r : Result A)
    → Ensures P r
    → ((a : A) (q : QArgs) → P a q → R a q)
    → Ensures R r
weaken P R (ok a q) h k = k a q h
weaken P R fail h k = tt
weaken P R fault h k = absurd h
weaken P R internal h k = absurd h
weaken P R stuck h k = absurd h

-- The characters and tokens left, and the tokens put back.
abbrev pub lf : QArgs → ℕ
lf q = left q.query

abbrev pub sz : QArgs → ℕ
sz q = length q.query.stack

pub next_token-Ensures :
    (q : QArgs) → Ensures (λ t q'. (weight t + lf q' ≤ lf q) × (sz q' ≡ sz q - 1)) (next_token q)
unfolding next_token
next_token-Ensures q = get_takes q.query

pub put_back-Ensures :
    (t : Token) (q : QArgs)
    → sz q < 2
    → Ensures (λ _ q'. (lf q' ≤ weight t + lf q) × (sz q' ≤ sz q + 1)) (put_back t q)
unfolding put_back
put_back-Ensures t q h =
    let (ts, e, l, s) = put_back_adds t q.query h in rw (e, put_back) (omega arith, omega arith)

-- The rules for a test: in front of a part of the parser, and in front of its result.
pub if_M {ℓ} :
    {A : Type ℓ} (P : A → QArgs → Type 0) (b : Bool) (f g : M A) (q : QArgs)
    → Ensures P (f q)
    → Ensures P (g q)
    → Ensures P ((if b then f else g) q)
if_M P true f g q hf hg = hf
if_M P false f g q hf hg = hg

pub if_Result {ℓ} :
    {A : Type ℓ} (P : A → QArgs → Type 0) (b : Bool) (r s : Result A)
    → Ensures P r
    → Ensures P s
    → Ensures P (if b then r else s)
if_Result P true r s hr hs = hr
if_Result P false r s hr hs = hs
