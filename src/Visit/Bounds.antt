-- ===== src/Visit/Bounds.antt =====
-- The words that `tracer_load_integer_value` of src/visit-arg-vec.c leaves in its result.
use native.Mathlib.Nat.{
  mod-lt, pow-suc, mul-le-mul_right, pow-le-pow_right, one-le-pow, div-le_self,
}
use libside.Common.{
  ℕ, zero, suc, ◌+◌, ◌-◌, ◌*◌, ◌/◌, ◌%◌, ◌^◌, ◌≤◌, ◌<◌, ◌≡◌, refl, ◌⊎◌, inl, inr, Bool, true, false,
  not, ◌&&◌, ◌||◌, ◌==◌, ltb, if◌then◌else◌, Outcome, ok, arith, Bool-cases, Ensures, Ensures-ok,
  Ensures-aborted, Ensures->>=,
}
use libside.Callback.Bytes.{word}
use libside.Callback.Words.{word-suc}
use libside.Visit.Integers.{
  ByteOrder, little_endian, big_endian, TypeInteger, IntValue, bswap, ordered, widen, halves,
  load_value, cut, default_len, load_integer_value,
}

-- Both are words of 64 bits.
abbrev pub Words : IntValue → Type 0
Words v = (v.low < 2 ^ 64) × (v.high < 2 ^ 64)

word-lt : (n : ℕ) (m : ℕ → ℕ) (o : ℕ) → ((i : ℕ) → m i < 256) → word n m o < 256 ^ n
unfolding word
word-lt zero m o b = omega arith
word-lt (suc n) m o b = omega (arith, word-suc n m o, word-lt n m (o + 1) b, b o, pow-suc 256 n)

bswap-lt : (n x : ℕ) → bswap n x < 256 ^ n
unfolding bswap
bswap-lt zero x = omega arith
bswap-lt (suc n) x =
    let top : x % 256 * 256 ^ n ≤ 255 * 256 ^ n = mul-le-mul_right (256 ^ n) (omega arith) in
    let rest = bswap-lt n (x / 256) in
    let power : 256 ^ suc n ≡ 256 ^ n * 256 = pow-suc 256 n in omega (arith, top, rest, power)

ordered-lt : (order : ByteOrder) (n x : ℕ) → x < 256 ^ n → ordered order n x < 256 ^ n
ordered-lt little_endian n x h = h
ordered-lt big_endian n x h = bswap-lt n x

-- The sizes of up to 8 bytes.
widen-Words :
    (signedness : Bool) (n x : ℕ)
    → (n ≡ 1) ⊎ (n ≡ 2) ⊎ (n ≡ 4) ⊎ (n ≡ 8)
    → x < 256 ^ n
    → Words (widen signedness n x)
widen-Words false n x (inl e) h =
    let h' : x < 256 ^ 1 = rw e at h in (omega (arith, h'), omega arith)
widen-Words false n x (inr (inl e)) h =
    let h' : x < 256 ^ 2 = rw e at h in (omega (arith, h'), omega arith)
widen-Words false n x (inr (inr (inl e))) h =
    let h' : x < 256 ^ 4 = rw e at h in (omega (arith, h'), omega arith)
widen-Words false n x (inr (inr (inr e))) h =
    let h' : x < 256 ^ 8 = rw e at h in (omega (arith, h'), omega arith)
widen-Words true n x (inl e) h =
    let h' : x < 256 ^ 1 = rw e at h in rw e (ground (arith, h'), omega arith)
widen-Words true n x (inr (inl e)) h =
    let h' : x < 256 ^ 2 = rw e at h in rw e (ground (arith, h'), omega arith)
widen-Words true n x (inr (inr (inl e))) h =
    let h' : x < 256 ^ 4 = rw e at h in rw e (ground (arith, h'), omega arith)
widen-Words true n x (inr (inr (inr e))) h =
    let h' : x < 256 ^ 8 = rw e at h in rw e (ground (arith, h'), omega arith)

halves-Words :
    (order : ByteOrder) (low high : ℕ)
    → low < 256 ^ 8
    → high < 256 ^ 8
    → Words (halves order low high)
halves-Words little_endian low high h k = (omega (arith, h), omega (arith, k))
halves-Words big_endian low high h k =
    let a = bswap-lt 8 high in let b = bswap-lt 8 low in (omega (arith, a), omega (arith, b))

cut-Words : (signedness : Bool) (len : ℕ) (v : IntValue) → Words v → Words (cut signedness len v)
cut-Words signedness len v (l, h) = elim (Bool-cases (ltb len 64)) [
  | inr e ↦ rw e (l, h)
  | inl e ↦
      let positive : 1 ≤ 2 ^ len = one-le-pow len 2 (omega arith) in
      let masked : v.low % 2 ^ len < 2 ^ len = mod-lt v.low (omega (arith, positive)) in
      let power : 2 ^ len ≤ 2 ^ 64 = pow-le-pow_right (omega arith) {j = 64} (ground arith) in
      elim (Bool-cases (signedness && not (v.low % 2 ^ len / 2 ^ (len - 1) % 2 == 0))) [
        | inl s ↦ rw (e, s) (omega (arith, masked, power), omega arith)
        | inr s ↦ rw (e, s) (omega (arith, masked, power), h)
      ]
]

small_sizes : (n : ℕ) → ((n == 2) || (n == 4) || (n == 8)) ≡ true → (n ≡ 2) ⊎ (n ≡ 4) ⊎ (n ≡ 8)
small_sizes n h = ground arith

pub Ensures-if {ℓ} :
    {A : Type 0} (P : A → Type ℓ) (b : Bool) (m n : Outcome A)
    → (b ≡ true → Ensures P m)
    → Ensures P n
    → Ensures P (if b then m else n)
Ensures-if P true m n h k = h refl
Ensures-if P false m n h k = k

module _ (value : ℕ → ℕ) (is_bytes : (i : ℕ) → value i < 256) where
  load_value-Words : (t : TypeInteger) → Ensures Words (load_value t value)
  unfolding load_value
  load_value-Words t =
      Ensures-if Words (t.integer_size == 1) _ _
        (λ e.
          Ensures-ok Words _
            (widen-Words t.signedness 1 (word 1 value 0) (inl refl) (word-lt 1 value 0 is_bytes)))
        (Ensures-if Words _ _ _
          (λ e. Ensures-ok Words _ (
            widen-Words t.signedness t.integer_size _ (inr (small_sizes t.integer_size e))
              (ordered-lt t.byte_order t.integer_size _ (word-lt t.integer_size value 0 is_bytes))))
          (Ensures-if Words (t.integer_size == 16) _ _
            (λ e. Ensures-ok Words _ (
              halves-Words t.byte_order _ _ (word-lt 8 value 0 is_bytes)
                (word-lt 8 value 8 is_bytes)))
            (Ensures-aborted Words)))

  -- Whatever the type of an integer and the bytes of the argument, both words of the result are words
  -- of 64 bits, if the program does not abort: neither the sign extension nor the cut to the length
  -- of the type overflows.
  pub load_integer_value-Words :
      (t : TypeInteger) (offset_bits : ℕ) {x : IntValue}
      → load_integer_value t value offset_bits ≡ ok x
      → (x.low < 2 ^ 64) × (x.high < 2 ^ 64)
  unfolding load_integer_value
  load_integer_value-Words t offset_bits {x} h = bounded x h
    where
      bounded : Ensures Words (load_integer_value t value offset_bits)
      bounded =
          Ensures-if Words _ _ _ (λ _. Ensures-aborted Words)
            (Ensures->>= Words Words (load_value t value) _ (load_value-Words t) (λ v w.
              Ensures-if Words _ _ _
                (λ _. Ensures-ok Words _ (
                  cut-Words t.signedness (default_len t)
                    (record v { low = v.low / 2 ^ offset_bits })
                    (
                      let le = div-le_self v.low (2 ^ offset_bits) in
                          let l = w.0 in omega (arith, le, l),
                      w.1,
                    )))
                (Ensures-if Words _ _ _ (λ _. Ensures-aborted Words) (Ensures-ok Words v w))))
