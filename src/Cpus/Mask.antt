-- ===== src/Cpus/Mask.antt =====
-- The list of possible CPUs as Linux writes it, and what src/smp.c makes of it.
use libside.Common.{
  ℕ, zero, suc, ◌+◌, ◌-◌, ◌*◌, ◌^◌, ◌≤◌, ◌<◌, ◌≡◌, ◌⊎◌, ◌∙◌, inl, inr, refl, sym, ap, Bool, true,
  false, ◌&&◌, Option, none, some, List, [], ◌∷◌, ◌==◌, ltb, leb, if◌then◌else◌, length, arith,
  Bool-cases, lt→ltb,
}
use libside.Cpus.{
  int_max, is_separator, last_index, get_max_cpuid_from_mask, from_mask, from_cpuid, read_mask,
  update_possible_cpus_array_len_cache, get_possible_cpus_array_len, Answers, Answer, bytes,
  cpumask_size, terminated,
}

abbrev pub is_digit : ℕ → Bool
is_digit c = leb 48 c && leb c 57

-- The number that `d` digits stand for.
unfoldable pub number : (ℕ → ℕ) → (d : ℕ) → ℕ
number p zero = 0
number p (suc d) = 10 * number p d + (p d - 48)

-- strtoul() in base 10 on digits that something else follows, where the number fits in 64 bits; the
-- strings are not longer than the buffer of src/smp.c.
abbrev pub ReadsDecimal : ((ℕ → ℕ) → ℕ × ℕ) → Type 0
ReadsDecimal strtoul =
    (p : ℕ → ℕ) (d : ℕ)
    → 0 < d
    → d < cpumask_size
    → ((k : ℕ) → k < d → is_digit (p k) ≡ true)
    → is_digit (p d) ≡ false
    → number p d < 2 ^ 64
    → strtoul p ≡ (number p d, d)

-- The last number of a text is `d` digits at `j`, and one more character follows: `j` is where the
-- text begins, or comes after a separator that does not begin it.
pub record LastNumber (text : ℕ → ℕ) (j d : ℕ) : Type 0 where
  pub starts : (j ≡ 0) ⊎ ((i : ℕ) × (j ≡ suc (suc i)) × (is_separator (text (suc i)) ≡ true))
  pub some_digit : 0 < d
  pub digits : (k : ℕ) → k < d → is_digit (text (j + k)) ≡ true
  pub no_digit : is_digit (text (j + d)) ≡ false
  pub no_separator : is_separator (text (j + d)) ≡ false

digit-no_separator : (c : ℕ) → is_digit c ≡ true → is_separator c ≡ false
digit-no_separator c h = ground arith

no_separators :
    (text : ℕ → ℕ) (j d : ℕ)
    → LastNumber text j d
    → (k : ℕ) → k ≤ d
    → is_separator (text (j + k)) ≡ false
no_separators text j d l k le = elim (Bool-cases (ltb k d)) [
  | inl h ↦ digit-no_separator (text (j + k)) (l.digits k (ground arith))
  | inr h ↦ let e : k ≡ d = ground arith in rw e l.no_separator
]

last_index-skip :
    (text : ℕ → ℕ) (i : ℕ)
    → is_separator (text (suc i)) ≡ false
    → last_index text (suc i) ≡ last_index text i
unfolding last_index
last_index-skip text i h = rw h refl

last_index-found :
    (text : ℕ → ℕ) (i : ℕ)
    → is_separator (text (suc i)) ≡ true
    → last_index text (suc i) ≡ suc (suc i)
unfolding last_index
last_index-found text i h = rw h refl

-- The search comes back to where the last number begins.
last_index-from :
    (text : ℕ → ℕ) (j m n : ℕ)
    → n ≡ j + m
    → (j ≡ 0) ⊎ ((i : ℕ) × (j ≡ suc (suc i)) × (is_separator (text (suc i)) ≡ true))
    → ((k : ℕ) → k ≤ m → is_separator (text (j + k)) ≡ false)
    → last_index text n ≡ j
unfolding last_index
last_index-from text j zero n e (inl z) none_between =
    let n0 : n ≡ 0 = omega (arith, e, z) in rw (n0, z) refl
last_index-from text j zero n e (inr (i, z, found)) none_between =
    let n' : n ≡ suc (suc i) = omega (arith, e, z) in
    let at : j + 0 ≡ suc (suc i) = omega (arith, z) in
    let f : is_separator (text (suc (suc i))) ≡ false =
      ap (λ k. is_separator (text k)) (sym at) ∙ none_between 0 (omega arith) in
    ap (last_index text) n' ∙ last_index-skip text (suc i) f ∙ last_index-found text i found ∙ sym z
last_index-from text j (suc m) n e starts none_between =
    let n' : n ≡ suc (j + m) = omega (arith, e) in
    let at : j + suc m ≡ suc (j + m) = omega arith in
    let f : is_separator (text (suc (j + m))) ≡ false =
      ap (λ k. is_separator (text k)) (sym at) ∙ none_between (suc m) (omega arith) in
    ap (last_index text) n'
    ∙ last_index-skip text (j + m) f
    ∙ last_index-from text j m (j + m) refl starts (λ k le. none_between k (omega (arith, le)))

if_true : {A : Type 0} (b : Bool) (x y : A) → b ≡ true → (if b then x else y) ≡ x
if_true b x y e = rw e refl

module _ (strtoul : (ℕ → ℕ) → ℕ × ℕ) (strtol : (ℕ → ℕ) → Option ℕ × ℕ) where
  pub get_max_cpuid_from_mask_lem :
      (text : ℕ → ℕ) (j d : ℕ)
      → ReadsDecimal strtoul
      → LastNumber text j d
      → j + d < cpumask_size
      → number (λ k. text (j + k)) d < int_max
      → get_max_cpuid_from_mask strtoul strtol text (j + d + 1)
        ≡ some (number (λ k. text (j + k)) d)
  unfolding get_max_cpuid_from_mask
  get_max_cpuid_from_mask_lem text j d reads l short small =
      let at : last_index text (j + d + 1 - 1) ≡ j =
        last_index-from text j d (j + d + 1 - 1) (omega arith) l.starts
          (no_separators text j d l) in
      let read =
        reads (λ k. text (j + k)) d l.some_digit (omega (arith, short)) l.digits l.no_digit
          (omega (arith, small)) in
      let n : leb 1 (j + d + 1) ≡ true = ground arith in
      let some_taken : (d == 0) ≡ false = ground (arith, l.some_digit) in
      let fits : ltb (number (λ k. text (j + k)) d) int_max ≡ true = lt→ltb _ int_max small in
      rw (at, read, n, some_taken, fits) refl

  -- Where strtoul() reads decimal numbers, and the system gives a list of CPUs in one read of fewer
  -- than 4096 bytes, with a last number in it that is below INT_MAX, an array for each CPU has room for
  -- one more than that number of elements, whatever else the system would answer. The last number has
  -- at least one digit and one character after it, which is neither a digit nor a separator.
  pub get_possible_cpus_array_len_lem :
      (text : List ℕ) (more : List Answer) (a : Answers) (j d : ℕ)
      → ReadsDecimal strtoul
      → a.opened ≡ true
      → a.reads ≡ bytes text ∷ bytes [] ∷ more
      → length text ≡ j + d + 1
      → length text < cpumask_size
      → LastNumber (terminated cpumask_size text) j d
      → number (λ k. terminated cpumask_size text (j + k)) d < int_max
      → get_possible_cpus_array_len strtoul strtol 0 a
        ≡ suc (number (λ k. terminated cpumask_size text (j + k)) d)
  unfolding get_possible_cpus_array_len update_possible_cpus_array_len_cache read_mask
  get_possible_cpus_array_len_lem [] more a j d reads o e len short l small =
      absurd (omega (arith, len))
  get_possible_cpus_array_len_lem (c ∷ cs) more a j d reads o e len short l small =
      let fits : ltb (length (c ∷ cs)) cpumask_size ≡ true =
        lt→ltb (length (c ∷ cs)) cpumask_size short in
      let found =
        get_max_cpuid_from_mask_lem (terminated cpumask_size (c ∷ cs)) j d reads l
          (omega (arith, len, short)) small in
      let whole : (if a.opened then read_mask a.reads cpumask_size [] else none) ≡ some (c ∷ cs) =
        rw (o, e) (if_true _ _ _ fits) in
      ap (from_mask strtoul strtol a) whole
      ∙ ap
          (λ n.
            from_cpuid strtoul strtol a
              (get_max_cpuid_from_mask strtoul strtol (terminated cpumask_size (c ∷ cs)) n))
          len
      ∙ ap (from_cpuid strtoul strtol a) found
