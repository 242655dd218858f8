-- ===== src/Tracer/Digits/Binary.antt =====
-- The texts of `print_integer_binary` of src/tracer.c.
use native.Mathlib.Nat.{
  pow-suc, one-le-pow, mul-div-mul_right, div-add-mod, mod-lt, div-lt_iff_lt-mul, mod-eq_of_lt,
  add-mul-mod_self_left, add-mul-mod_self_right,
}
use libside.Common.{
  ℕ, zero, suc, ◌+◌, ◌-◌, ◌*◌, ◌/◌, ◌%◌, ◌^◌, ◌≤◌, ◌<◌, ◌≡◌, refl, sym, ap, ◌∙◌, ltb, List, [], ◌∷◌,
  ◌++◌, arith, length, length-append, inl, inr, Bool-cases, if◌then◌else◌, ◌==◌,
}
use libside.Visit.Integers.{IntValue}
use libside.Tracer.Digits.{put_bits, print_integer_binary}
use libside.Tracer.Digits.Text.{number, IsU128, read_number}

pow-add : (m n : ℕ) → 2 ^ (m + n) ≡ 2 ^ m * 2 ^ n
pow-add zero n = let e : zero + n ≡ n = omega arith in rw e (omega arith)
pow-add (suc m) n =
    let e : suc m + n ≡ suc (m + n) = omega arith in
    ap (λ k. 2 ^ k) e
    ∙ pow-suc 2 (m + n)
    ∙ ap (λ p. p * 2) (pow-add m n)
    ∙ rw (pow-suc 2 m) (grind arith)

mul-mod : (w p k : ℕ) → 0 < p → 0 < k → w * k % (p * k) ≡ w % p * k
mul-mod w p k hp hk =
    let quotient : w * k / (p * k) ≡ w / p = mul-div-mul_right w p hk in
    let whole : p * k * (w / p) + w * k % (p * k) ≡ w * k =
      ap (λ q. p * k * q + w * k % (p * k)) (sym quotient) ∙ div-add-mod (w * k) (p * k) in
    let split : (p * (w / p) + w % p) * k ≡ w * k = ap (λ t. t * k) (div-add-mod w p) in
    grind (arith, whole, split)

put_bit : (q : ℕ) → q < 2 → (if q % 2 == 0 then b'0' else b'1') - b'0' ≡ q
put_bit q h = ground arith

-- With `n` bits left, at the top of the word.
read_number-put_bits :
    (n k w read : ℕ)
    → n + k ≡ 64
    → w < 2 ^ n
    → read_number 2 read (put_bits (w * 2 ^ k) n) ≡ read * 2 ^ n + w
unfolding read_number put_bits
read_number-put_bits zero k w read e h = omega (arith, h)
read_number-put_bits (suc n) k w read e h =
    let half : w < 2 ^ n * 2 = rw (pow-suc 2 n) at h in
    let some : 0 < 2 ^ n = one-le-pow n 2 (omega arith) in
    let some_k : 0 < 2 ^ suc k = one-le-pow (suc k) 2 (omega arith) in
    let sum : 63 ≡ n + k = omega (arith, e) in
    let top : w * 2 ^ k / 2 ^ 63 ≡ w / 2 ^ n =
      ap (λ p. w * 2 ^ k / p) (ap (λ m. 2 ^ m) sum ∙ pow-add n k)
      ∙ mul-div-mul_right w (2 ^ n) (one-le-pow k 2 (omega arith)) in
    let sum' : 64 ≡ n + suc k = omega (arith, e) in
    let twice : w * 2 ^ k * 2 ≡ w * 2 ^ suc k = rw (pow-suc 2 k) (grind arith) in
    let next : w * 2 ^ k * 2 % 2 ^ 64 ≡ w % 2 ^ n * 2 ^ suc k =
      ap (λ p. w * 2 ^ k * 2 % p) (ap (λ m. 2 ^ m) sum' ∙ pow-add n (suc k))
      ∙ ap (λ x. x % (2 ^ n * 2 ^ suc k)) twice
      ∙ mul-mod w (2 ^ n) (2 ^ suc k) some some_k in
    let one_bit : w / 2 ^ n < 2 = (div-lt_iff_lt-mul some).1 (omega (arith, half)) in
    rw (top, next, put_bit (w / 2 ^ n) one_bit)
      (read_number-put_bits n (suc k) (w % 2 ^ n) (read * 2 + w / 2 ^ n) (omega (arith, e))
          (mod-lt w some)
        ∙ rw (pow-suc 2 n) (grind (arith, div-add-mod w (2 ^ n))))

read_number-append :
    (base read : ℕ) (xs ys : List ℕ)
    → read_number base read (xs ++ ys) ≡ read_number base (read_number base read xs) ys
unfolding read_number
read_number-append base read [] ys = refl
read_number-append base read (x ∷ xs) ys = read_number-append base (read * base + (x - b'0')) xs ys

length-put_bits : (v n : ℕ) → length (put_bits v n) ≡ n
unfolding put_bits
length-put_bits v zero = refl
length-put_bits v (suc n) = ap suc (length-put_bits (v * 2 % 2 ^ 64) n)

-- A shift up that leaves the lowest `n` bits, at the top of the word.
shift : (n v : ℕ) → n ≤ 64 → v * 2 ^ (64 - n) % 2 ^ 64 ≡ v % 2 ^ n * 2 ^ (64 - n)
shift n v h =
    let sum : 64 ≡ n + (64 - n) = omega (arith, h) in
    ap (λ p. v * 2 ^ (64 - n) % p) (ap (λ m. 2 ^ m) sum ∙ pow-add n (64 - n))
    ∙ mul-mod v (2 ^ n) (2 ^ (64 - n)) (one-le-pow n 2 (omega arith))
        (one-le-pow (64 - n) 2 (omega arith))

shifted :
    (n v read : ℕ)
    → n ≤ 64
    → read_number 2 read (put_bits (v * 2 ^ (64 - n) % 2 ^ 64) n) ≡ read * 2 ^ n + v % 2 ^ n
shifted n v read h = rw (shift n v h) (
    read_number-put_bits n (64 - n) (v % 2 ^ n) read (omega (arith, h))
      (mod-lt v (one-le-pow n 2 (omega arith))))

whole_word : (v read : ℕ) → v < 2 ^ 64 → read_number 2 read (put_bits v 64) ≡ read * 2 ^ 64 + v
whole_word v read h =
    let same : v * 2 ^ 0 ≡ v = omega arith in
    ap (λ x. read_number 2 read (put_bits x 64)) (sym same)
    ∙ read_number-put_bits 64 0 v read refl h

-- The lowest bits of an integer, at most a word of them and more.
pub low_bits : (v : IntValue) (bits : ℕ) → bits ≤ 64 → number v % 2 ^ bits ≡ v.low % 2 ^ bits
low_bits v bits h =
    let sum : 64 ≡ 64 - bits + bits = omega (arith, h) in
    let split : 2 ^ 64 ≡ 2 ^ (64 - bits) * 2 ^ bits =
      ap (λ m. 2 ^ m) sum ∙ pow-add (64 - bits) bits in
    let low : number v ≡ v.low + v.high * 2 ^ (64 - bits) * 2 ^ bits =
      ap (λ p. v.high * p + v.low) split ∙ grind arith in
    ap (λ n. n % 2 ^ bits) low ∙ add-mul-mod_self_right v.low (v.high * 2 ^ (64 - bits)) (2 ^ bits)

pub high_bits :
    (v : IntValue) (m : ℕ)
    → v.low < 2 ^ 64
    → number v % 2 ^ (m + 64) ≡ v.high % 2 ^ m * 2 ^ 64 + v.low
high_bits v m h =
    let some : 0 < 2 ^ m = one-le-pow m 2 (omega arith) in
    let split : number v ≡ v.high % 2 ^ m * 2 ^ 64 + v.low + 2 ^ m * 2 ^ 64 * (v.high / 2 ^ m) =
      grind (arith, div-add-mod v.high (2 ^ m)) in
    let small : v.high % 2 ^ m * 2 ^ 64 + v.low < 2 ^ m * 2 ^ 64 =
      omega (arith, mod-lt v.high some, h) in
    ap (λ n. n % 2 ^ (m + 64)) split
    ∙ ap (λ p. (v.high % 2 ^ m * 2 ^ 64 + v.low + 2 ^ m * 2 ^ 64 * (v.high / 2 ^ m)) % p)
        (pow-add m 64)
    ∙ add-mul-mod_self_left (v.high % 2 ^ m * 2 ^ 64 + v.low) (2 ^ m * 2 ^ 64) (v.high / 2 ^ m)
    ∙ mod-eq_of_lt small

-- What is written after "0b" for the lowest `bits` bits of an integer.
abbrev pub IsBinary : (bits : ℕ) → IntValue → List ℕ → Type 0
IsBinary bits v [] = 0 < 0
IsBinary bits v (c ∷ []) = 0 < 0
IsBinary bits v (c ∷ d ∷ text) =
    (c ≡ b'0') × (d ≡ b'b') × (length text ≡ bits) × (read_number 2 0 text ≡ number v % 2 ^ bits)

-- For 1 to 128 bits, print_integer_binary() writes "0b" and that many digits, and they stand in base 2
-- for the integer modulo 2 to the number of bits.
pub print_integer_binary-IsBinary :
    (v : IntValue) (bits : ℕ)
    → IsU128 v
    → 0 < bits
    → bits ≤ 128
    → IsBinary bits v (print_integer_binary v bits)
unfolding print_integer_binary
print_integer_binary-IsBinary v bits (hh, hl) some few = elim (Bool-cases (ltb 64 bits)) [
  | inl e ↦
      let m : ℕ = bits - 64 in
      let sum : bits ≡ m + 64 = ground arith in
      let high = put_bits (v.high * 2 ^ (64 - m) % 2 ^ 64) m in
      let first : read_number 2 0 high ≡ v.high % 2 ^ m =
        shifted m v.high 0 (omega (arith, few)) ∙ omega arith in
      rw e (
        refl,
        refl,
        length-append high (put_bits v.low 64)
            ∙ omega (
              arith,
              length-put_bits (v.high * 2 ^ (64 - m) % 2 ^ 64) m,
              length-put_bits v.low 64,
              sum,
            ),
        read_number-append 2 0 high (put_bits v.low 64)
            ∙ whole_word v.low (read_number 2 0 high) hl
            ∙ ap (λ r. r * 2 ^ 64 + v.low) first
            ∙ sym (ap (λ n. number v % 2 ^ n) sum ∙ high_bits v m hl),
      )
  | inr e ↦
      let low : read_number 2 0 (put_bits (v.low * 2 ^ (64 - bits) % 2 ^ 64) bits)
          ≡ v.low % 2 ^ bits =
        shifted bits v.low 0 (ground arith) ∙ omega arith in
      rw e (refl, refl, length-put_bits _ bits, low ∙ sym (low_bits v bits (ground arith)))
]
