-- ===== src/Cpus/Examples.antt =====
-- A list of the CPUs 0 to 7, with the newline that ends it, and a strtoul() for the strings of
-- src/smp.c.
use libside.Common.{
  ℕ, zero, suc, ◌+◌, ◌-◌, ◌*◌, ◌<◌, ◌≡◌, refl, sym, ap, ◌∙◌, inr, true, false, Option, none, List,
  [], ◌∷◌, if◌then◌else◌, arith,
}
use libside.Cpus.{Answers, bytes, cpumask_size, terminated, get_possible_cpus_array_len}
use libside.Cpus.Mask.{is_digit, number, ReadsDecimal, LastNumber, get_possible_cpus_array_len_lem}

unfoldable scan : ℕ → (acc k : ℕ) → (ℕ → ℕ) → ℕ × ℕ
scan zero acc k p = (acc, k)
scan (suc f) acc k p =
    let rest = scan f (10 * acc + (p k - 48)) (suc k) p in if is_digit (p k) then rest else (acc, k)

scan_lem :
    (f m k : ℕ) (p : ℕ → ℕ) (d : ℕ)
    → d ≡ k + m
    → m < f
    → ((i : ℕ) → i < d → is_digit (p i) ≡ true)
    → is_digit (p d) ≡ false
    → scan f (number p k) k p ≡ (number p d, d)
unfolding scan number
scan_lem zero m k p d e lt digits no_digit = absurd (omega (arith, lt))
scan_lem (suc f) zero k p d e lt digits no_digit =
    let e' : d ≡ k = omega (arith, e) in
    let h : is_digit (p k) ≡ false = ap (λ i. is_digit (p i)) (sym e') ∙ no_digit in rw (h, e') refl
scan_lem (suc f) (suc m) k p d e lt digits no_digit =
    let h = digits k (omega (arith, e)) in
    rw h (scan_lem f m (suc k) p d (omega (arith, e)) (omega (arith, lt)) digits no_digit)

strtoul : (ℕ → ℕ) → ℕ × ℕ
strtoul p = scan cpumask_size 0 0 p

strtoul-ReadsDecimal : ReadsDecimal strtoul
unfolding number strtoul
strtoul-ReadsDecimal p d some_digit short digits no_digit small =
    scan_lem cpumask_size d 0 p d (omega arith) short digits no_digit

-- "0-7\n".
abbrev cpu_list : List ℕ
cpu_list = 48 ∷ 45 ∷ 55 ∷ 10 ∷ []

abbrev system : Answers
system = record {
  opened = true;
  reads = bytes cpu_list ∷ bytes [] ∷ [];
  entries = [];
  configured = 1;
}

cpu_list-LastNumber : LastNumber (terminated cpumask_size cpu_list) 2 1
cpu_list-LastNumber = record {
  starts = inr (0, refl, refl);
  some_digit = omega arith;
  digits = λ k lt. let e : k ≡ 0 = omega (arith, lt) in rw e refl;
  no_digit = refl;
  no_separator = refl;
}

no_strtol : (ℕ → ℕ) → Option ℕ × ℕ
no_strtol p = (none, 0)

get_possible_cpus_array_len_lem_example : get_possible_cpus_array_len strtoul no_strtol 0 system ≡ 8
unfolding number
get_possible_cpus_array_len_lem_example =
    get_possible_cpus_array_len_lem strtoul no_strtol cpu_list [] system 2 1 strtoul-ReadsDecimal
      refl refl refl (omega arith) cpu_list-LastNumber (omega arith)
