-- ===== src/Tracer/Digits/Value.antt =====
-- The number that the digits of a conversion of src/tracer.c stand for.
use native.Mathlib.Nat.{pow-suc, div-add-mod, div-div-eq-div-mul}
use libside.Common.{
  ℕ, zero, suc, ◌+◌, ◌*◌, ◌/◌, ◌%◌, ◌^◌, ◌<◌, ◌≡◌, refl, ap, ◌∙◌, List, [], ◌∷◌, arith, length,
}
use libside.Tracer.Digits.{zeros, bit, add_bit, double, carry, add_high, add_low}

-- The digits of a number, the lowest first.
abbrev pub value : (base : ℕ) → List ℕ → ℕ
value base [] = 0
value base (x ∷ ds) = x + base * value base ds

pub value-zeros : (base n : ℕ) → value base (zeros n) ≡ 0
value-zeros base zero = refl
value-zeros base (suc n) = rw (value-zeros base n) (omega arith)

value-add_bit :
    (base b : ℕ) (ds : List ℕ) → 0 < length ds → value base (add_bit b ds) ≡ value base ds + b
value-add_bit base b [] h = absurd (omega (arith, h))
value-add_bit base b (x ∷ ds) h = omega arith

value-double : (base : ℕ) (ds : List ℕ) → value base (double ds) ≡ 2 * value base ds
value-double base [] = refl
value-double base (x ∷ ds) = rw (value-double base ds) (omega arith)

value-carry :
    (base given : ℕ) (ds : List ℕ)
    → 0 < length ds
    → value base (carry base given ds) ≡ value base ds + given
value-carry base given [] h = absurd (omega (arith, h))
value-carry base given (x ∷ []) h = omega arith
value-carry base given (x ∷ y ∷ ds) h =
    rw (value-carry base ((x + given) / base) (y ∷ ds) (omega arith))
      (grind (arith, div-add-mod (x + given) base))

pub length-zeros : (n : ℕ) → length (zeros n) ≡ n
length-zeros zero = refl
length-zeros (suc n) = ap suc (length-zeros n)

pub length-add_bit : (b : ℕ) (ds : List ℕ) → length (add_bit b ds) ≡ length ds
length-add_bit b [] = refl
length-add_bit b (x ∷ ds) = refl

length-double : (ds : List ℕ) → length (double ds) ≡ length ds
length-double [] = refl
length-double (x ∷ ds) = ap suc (length-double ds)

pub length-carry : (base given : ℕ) (ds : List ℕ) → length (carry base given ds) ≡ length ds
length-carry base given [] = refl
length-carry base given (x ∷ []) = refl
length-carry base given (x ∷ y ∷ ds) = ap suc (length-carry base ((x + given) / base) (y ∷ ds))

-- One round of the loop over the high word, and of that over the low word.
abbrev pub high_round : (base b : ℕ) → List ℕ → List ℕ
high_round base b ds = carry base 0 (double (add_bit b ds))

pub length-high_round : (base b : ℕ) (ds : List ℕ) → length (high_round base b ds) ≡ length ds
length-high_round base b ds =
    length-carry base 0 (double (add_bit b ds)) ∙ length-double (add_bit b ds) ∙ length-add_bit b ds

value-high_round :
    (base b : ℕ) (ds : List ℕ)
    → 0 < length ds
    → value base (high_round base b ds) ≡ 2 * (value base ds + b)
value-high_round base b ds h = omega (
  arith,
  value-carry base 0 (double (add_bit b ds))
      (omega (arith, length-double (add_bit b ds), length-add_bit b ds, h)),
  value-double base (add_bit b ds),
  value-add_bit base b ds h,
)

abbrev last_round : (base b : ℕ) → List ℕ → List ℕ
last_round base b ds = carry base 0 (add_bit b ds)

value-last_round :
    (base b : ℕ) (ds : List ℕ)
    → 0 < length ds
    → value base (last_round base b ds) ≡ value base ds + b
value-last_round base b ds h = omega (
  arith,
  value-carry base 0 (add_bit b ds) (omega (arith, length-add_bit b ds, h)),
  value-add_bit base b ds h,
)

mod-double : (v p : ℕ) → v % (p * 2) ≡ v / p % 2 * p + v % p
mod-double v p =
    let whole : p * 2 * (v / p / 2) + v % (p * 2) ≡ v =
      ap (λ q. p * 2 * q + v % (p * 2)) (div-div-eq-div-mul v p 2) ∙ div-add-mod v (p * 2) in
    let split : p * (2 * (v / p / 2) + v / p % 2) ≡ p * (v / p) =
      ap (λ q. p * q) (div-add-mod (v / p) 2) in
    grind (arith, whole, split, div-add-mod v p)

-- The bits of a number below the one of weight 2 ^ i, with that one.
mod-bit : (v i : ℕ) → v % 2 ^ suc i ≡ bit v i * 2 ^ i + v % 2 ^ i
mod-bit v i = ap (λ p. v % p) (pow-suc 2 i) ∙ mod-double v (2 ^ i)

pub value-add_high :
    (base v i : ℕ) (ds : List ℕ)
    → 0 < length ds
    → value base (add_high base v i ds) ≡ value base ds * 2 ^ i + 2 * (v % 2 ^ i)
unfolding add_high
value-add_high base v zero ds h = omega arith
value-add_high base v (suc i) ds h =
    rw
      (
        value-add_high base v i (high_round base (bit v i) ds)
            (omega (arith, length-high_round base (bit v i) ds, h)),
        value-high_round base (bit v i) ds h,
        mod-bit v i,
        pow-suc 2 i,
      )
      (grind arith)

pub value-add_low :
    (base v i : ℕ) (ds : List ℕ)
    → 0 < length ds
    → value base (add_low base v (suc i) ds) ≡ value base ds * 2 ^ i + v % 2 ^ suc i
unfolding add_low
value-add_low base v zero ds h = value-last_round base (bit v 0) ds h ∙ omega arith
value-add_low base v (suc i) ds h =
    rw
      (
        value-add_low base v i (high_round base (bit v (suc i)) ds)
            (omega (arith, length-high_round base (bit v (suc i)) ds, h)),
        value-high_round base (bit v (suc i)) ds h,
        mod-bit v (suc i),
        pow-suc 2 i,
      )
      (grind arith)
