-- ===== src/Visit/Loading.antt =====
-- What the load of an integer argument in src/visit-arg-vec.c gives.
use mathlib.Core.Path.{subst}
use native.Mathlib.Nat.{pow-suc}
use libside.Common.{
  ℕ, zero, suc, ◌+◌, ◌-◌, ◌*◌, ◌/◌, ◌%◌, ◌^◌, ◌<◌, ◌≡◌, refl, sym, ap, ◌∙◌, true, false, ◌==◌,
  ==_iff, arith, ok, Bool, Bool-cases, inl, inr, ◌⊎◌, ◌||◌,
}
use libside.Callback.Bytes.{word, store}
use libside.Callback.Words.{word-suc, word-store}
use libside.Visit.Integers.{
  TypeInteger, ByteOrder, little_endian, big_endian, bswap, load_value, load_integer_value,
}

word-last : (n : ℕ) (g : ℕ → ℕ) (p : ℕ) → word (suc n) g p ≡ word n g p + 256 ^ n * g (p + n)
unfolding word
word-last zero g p = let e : g (p + 0) ≡ g p = ap g (omega arith) in omega (arith, e)
word-last (suc n) g p =
    let rest : word (suc n) g (p + 1) ≡ word n g (p + 1) + 256 ^ n * g (p + 1 + n) =
      word-last n g (p + 1) in
    let power : 256 ^ suc n ≡ 256 ^ n * 256 = pow-suc 256 n in
    let same : g (p + suc n) ≡ g (p + 1 + n) = ap g (omega arith) in
    rw (power, same) (grind (arith, rest))

-- Swapping the bytes of a number gives the number of the reversed bytes.
bswap-word :
    (n : ℕ) (m g : ℕ → ℕ) (o p : ℕ)
    → ((i : ℕ) → m i < 256)
    → ((i : ℕ) → i < n → g (p + i) ≡ m (o + (n - 1 - i)))
    → bswap n (word n m o) ≡ word n g p
unfolding bswap
bswap-word zero m g o p small turned = unfold word in refl
bswap-word (suc n) m g o p small turned =
    let rest : bswap n (word n m (o + 1)) ≡ word n g p =
      bswap-word n m g (o + 1) p small (λ i l. turned i (omega arith) ∙ ap m (omega arith)) in
    let head : word (suc n) m o % 256 ≡ m o = omega (arith, word-suc n m o, small o) in
    let tail : word (suc n) m o / 256 ≡ word n m (o + 1) = omega (arith, word-suc n m o, small o) in
    let first : g (p + n) ≡ m o = turned n (omega arith) ∙ ap m (omega arith) in
    rw (head, tail, rest, word-last n g p, first) (grind arith)

abbrev pub with_order : TypeInteger → ByteOrder → TypeInteger
with_order t order = record t { byte_order = order }

abbrev pub reversed : ℕ → (ℕ → ℕ) → ℕ → ℕ
reversed n value i = value (n - 1 - i)

module _ (value : ℕ → ℕ) (small : (i : ℕ) → value i < 256) where
  bswap-reversed : (n : ℕ) → bswap n (word n (reversed n value) 0) ≡ word n value 0
  bswap-reversed n =
      bswap-word n (reversed n value) value 0 0 (λ i. small (n - 1 - i))
        (λ i l. ap value (omega arith))

  word-one : word 1 (reversed 1 value) 0 ≡ word 1 value 0
  unfolding word
  word-one = refl

  high_half : bswap 8 (word 8 (reversed 16 value) 8) ≡ word 8 value 0
  high_half =
      bswap-word 8 (reversed 16 value) value 8 0 (λ i. small (16 - 1 - i))
        (λ i l. ap value (omega arith))

  low_half : bswap 8 (word 8 (reversed 16 value) 0) ≡ word 8 value 8
  low_half =
      bswap-word 8 (reversed 16 value) value 0 8 (λ i. small (16 - 1 - i))
        (λ i l. ap value (omega arith))

  load_value-big_endian :
      (t : TypeInteger)
      → load_value (with_order t big_endian) (reversed t.integer_size value)
        ≡ load_value (with_order t little_endian) value
  unfolding load_value
  load_value-big_endian t =
      let n = t.integer_size in
      elim (Bool-cases (n == 1)) [
        | inl one ↦ let e : n ≡ 1 = (==_iff n 1).0 one in rw (one, e, word-one) refl
        | inr more ↦ rw more (elim (Bool-cases ((n == 2) || (n == 4) || (n == 8))) [
          | inl some_words ↦ rw (some_words, bswap-reversed n) refl
          | inr long ↦ rw long (elim (Bool-cases (n == 16)) [
            | inl e ↦ let e' : n ≡ 16 = (==_iff n 16).0 e in rw (e, e', high_half, low_half) refl
            | inr none ↦ rw none refl
          ])
        ])
      ]

  -- The byte order of an integer does not matter: the bytes of an argument in reverse, read by a type
  -- with the other byte order, give what the bytes themselves give, for every size, length, offset and
  -- sign, and where the load aborts.
  pub load_integer_value-big_endian :
      (t : TypeInteger) (offset_bits : ℕ)
      → load_integer_value (with_order t big_endian) (reversed t.integer_size value) offset_bits
        ≡ load_integer_value (with_order t little_endian) value offset_bits
  unfolding load_integer_value
  load_integer_value-big_endian t offset_bits = rw (load_value-big_endian t) refl

abbrev pub unsigned : (integer_size : ℕ) → TypeInteger
unsigned n = record {
  integer_size = n;
  len_bits = 0;
  signedness = false;
  byte_order = little_endian;
}

-- The sizes of an integer of up to 64 bits.
abbrev pub is_size : ℕ → Bool
is_size n = (n == 1) || (n == 2) || (n == 4) || (n == 8)

abbrev Reads : ℕ → Type 0
Reads n =
    (value : ℕ → ℕ) (x : ℕ)
    → x < 256 ^ n
    → load_integer_value (unsigned n) (store n value 0 x) 0 ≡ ok (record { low = x; high = 0 })

load_one_byte : Reads 1
unfolding load_integer_value load_value
load_one_byte value x fits = rw (word-store 1 value 0 x fits) (ground arith)

load_two_bytes : Reads 2
unfolding load_integer_value load_value
load_two_bytes value x fits = rw (word-store 2 value 0 x fits) (ground arith)

load_four_bytes : Reads 4
unfolding load_integer_value load_value
load_four_bytes value x fits = rw (word-store 4 value 0 x fits) (ground arith)

load_eight_bytes : Reads 8
unfolding load_integer_value load_value
load_eight_bytes value x fits = rw (word-store 8 value 0 x fits) (ground arith)

size_cases : (n : ℕ) → is_size n ≡ true → (n ≡ 1) ⊎ (n ≡ 2) ⊎ (n ≡ 4) ⊎ (n ≡ 8)
size_cases n h = ground arith

-- An unsigned number that fits in 1, 2, 4 or 8 bytes, stored in memory, is read back.
pub load_integer_value-store :
    (n : ℕ)
    → is_size n ≡ true
    → (value : ℕ → ℕ) (x : ℕ) → x < 256 ^ n
    → load_integer_value (unsigned n) (store n value 0 x) 0 ≡ ok (record { low = x; high = 0 })
load_integer_value-store n size = elim (size_cases n size) [
  | inl e ↦ subst Reads (sym e) load_one_byte
  | inr (inl e) ↦ subst Reads (sym e) load_two_bytes
  | inr (inr (inl e)) ↦ subst Reads (sym e) load_four_bytes
  | inr (inr (inr e)) ↦ subst Reads (sym e) load_eight_bytes
]
