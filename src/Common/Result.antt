-- ===== src/Common/Result.antt =====
-- The outcome of a C function: a value, `abort()` or a failed `assert`, or an invalid memory access.
use mathlib.Core.Path.{◌≡◌, refl, subst}

pub data Outcome {ℓ} (A : Type ℓ) : Type ℓ where
  ok : A → Outcome A
  aborted : Outcome A
  fault : Outcome A

infixl 5 ◌>>=◌ ◌>>◌
abbrev pub ◌>>=◌ {ℓ κ} : {A : Type ℓ} {B : Type κ} → Outcome A → (A → Outcome B) → Outcome B
ok a >>= f = f a
aborted >>= f = aborted
fault >>= f = fault

abbrev pub ◌>>◌ {ℓ} : {B : Type ℓ} → Outcome (Unit {0}) → Outcome B → Outcome B
m >> k = m >>= λ _. k

-- A chain that succeeds, taken apart.
pub >>=-ok {ℓ κ} :
    {A : Type ℓ} {B : Type κ} (m : Outcome A) (f : A → Outcome B) {b : B}
    → (m >>= f) ≡ ok b
    → (a : A) × (m ≡ ok a) × (f a ≡ ok b)
>>=-ok (ok a) f h = (a, refl, h)
>>=-ok aborted f h = cc
>>=-ok fault f h = cc

-- What holds of every value that a computation returns.
abbrev pub Ensures {ℓ κ} : {A : Type ℓ} → (A → Type κ) → Outcome A → Type (ℓ ⊔ κ)
Ensures {A} P m = (a : A) → m ≡ ok a → P a

pub Ensures-ok {ℓ κ} : {A : Type ℓ} (P : A → Type κ) (a : A) → P a → Ensures P (ok a)
Ensures-ok P a h b e = let e' : a ≡ b = cc in subst P e' h

pub Ensures-aborted {ℓ κ} : {A : Type ℓ} (P : A → Type κ) → Ensures P aborted
Ensures-aborted P a e = cc

pub Ensures-fault {ℓ κ} : {A : Type ℓ} (P : A → Type κ) → Ensures P fault
Ensures-fault P a e = cc

pub Ensures->>= {ℓ κ μ ν} :
    {A : Type ℓ} {B : Type κ} (Q : A → Type μ) (P : B → Type ν) (m : Outcome A) (f : A → Outcome B)
    → Ensures Q m
    → ((a : A) → Q a → Ensures P (f a))
    → Ensures P (m >>= f)
Ensures->>= Q P m f hm hf b e = let (a, e', e'') = >>=-ok m f e in hf a (hm a e') b e''

-- The same where the first value does not matter.
pub Ensures->> {ℓ κ ν} :
    {A : Type ℓ} {B : Type κ} (P : B → Type ν) (m : Outcome A) (f : A → Outcome B)
    → ((a : A) → Ensures P (f a))
    → Ensures P (m >>= f)
Ensures->> P m f hf b e = let (a, _, e'') = >>=-ok m f e in hf a b e''
