-- ===== src/Callback/Words.antt =====
-- Words in memory: what a store leaves, and what it spares.
use native.Mathlib.Nat.{pow-suc}
use libside.Common.{ℕ, zero, suc, ◌+◌, ◌*◌, ◌/◌, ◌^◌, ◌≤◌, ◌<◌, ◌≡◌, refl, ◌⊎◌, inl, inr, arith}
use libside.Callback.Bytes.{word, store}

pub word-ext :
    (n : ℕ) (m g : ℕ → ℕ) (o : ℕ)
    → ((i : ℕ) → o ≤ i → i < o + n → g i ≡ m i)
    → word n g o ≡ word n m o
unfolding word
word-ext zero m g o same = refl
word-ext (suc n) m g o same = omega (
  arith,
  same o (omega arith) (omega arith),
  word-ext n m g (o + 1) (λ i l u. same i (omega arith) (omega arith)),
)

pub word-suc : (n : ℕ) (m : ℕ → ℕ) (o : ℕ) → word (suc n) m o ≡ m o + 256 * word n m (o + 1)
unfolding word
word-suc n m o = refl

pub word-zero :
    (n : ℕ) (m : ℕ → ℕ) (o : ℕ) → ((i : ℕ) → o ≤ i → i < o + n → m i ≡ 0) → word n m o ≡ 0
unfolding word
word-zero zero m o none_set = refl
word-zero (suc n) m o none_set = omega (
  arith,
  none_set o (omega arith) (omega arith),
  word-zero n m (o + 1) (λ i l u. none_set i (omega arith) (omega arith)),
)

pub store-other : (n : ℕ) (m : ℕ → ℕ) (o v i : ℕ) → (i < o) ⊎ (o + n ≤ i) → store n m o v i ≡ m i
unfolding store
store-other zero m o v i apart = refl
store-other (suc n) m o v i apart = ground (arith, store-other n m (o + 1) (v / 256) i)

-- A word that fits is read back as it was stored.
pub word-store : (n : ℕ) (m : ℕ → ℕ) (o v : ℕ) → v < 256 ^ n → word n (store n m o v) o ≡ v
unfolding word store
word-store zero m o v fits = omega arith
word-store (suc n) m o v fits =
    let room : v < 256 ^ n * 256 = omega (arith, pow-suc 256 n) in
    let rest = word-store n m (o + 1) (v / 256) (omega arith) in
    let same =
      word-ext n (store n m (o + 1) (v / 256)) (store (suc n) m o v) (o + 1)
        (λ i l u. ground arith) in
    ground (arith, rest, same)

pub word-store_other :
    (k n : ℕ) (m : ℕ → ℕ) (o v a : ℕ)
    → (a + k ≤ o) ⊎ (o + n ≤ a)
    → word k (store n m o v) a ≡ word k m a
word-store_other k n m o v a (inl below) =
    word-ext k m (store n m o v) a (λ i l u. store-other n m o v i (inl (omega arith)))
word-store_other k n m o v a (inr above) =
    word-ext k m (store n m o v) a (λ i l u. store-other n m o v i (inr (omega arith)))

pub store-lt :
    (n : ℕ) (m : ℕ → ℕ) (o v : ℕ) → ((i : ℕ) → m i < 256) → (i : ℕ) → store n m o v i < 256
unfolding store
store-lt zero m o v small i = small i
store-lt (suc n) m o v small i = ground (arith, store-lt n m (o + 1) (v / 256) small i)
