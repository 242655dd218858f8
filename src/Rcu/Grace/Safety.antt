-- ===== src/Rcu/Grace/Safety.antt =====
-- The guarantee of a grace period.
use mathlib.Core.Path.{subst}
use libside.Common.{ℕ, zero, suc, ◌≤◌, ◌<◌, ◌≡◌, refl, true, false, arith, ◌==◌, if◌then◌else◌}
use libside.Rcu.{word_mod}
use libside.Rcu.Counting.{total, total-ge, sum_to, sum_to-update}
use libside.Rcu.Grace.{
  inside, idle, System, done, Step, load_period, begin_section, end_section, other_flip, start,
  load_end, ends_loaded, load_begin, begins_loaded, lock, initial, Reach, here, next,
}
use libside.Rcu.Grace.Invariant.{
  in_period, old_in, PcInv, Inv, load_period-Inv, begin_section-Inv, end_section-Inv,
}
use libside.Rcu.Grace.Updater.{
  other_flip-Inv, start-Inv, load_end-Inv, ends_loaded-Inv, load_begin-Inv, begins_loaded-Inv,
  lock-Inv,
}

-- Fewer than 2^64 sections began, so that no sum wraps to the same word.
abbrev pub FewSections : ℕ → System → Type 0
FewSections n s = (p : ℕ) → sum_to p s.begun n < word_mod

Step-FewSections : {m n : ℕ} {s t : System} → Step m n s t → FewSections n t → FewSections n s
Step-FewSections {n} {s} (begin_section r k lt room e) few =
    λ p. ground (arith, few p, sum_to-update p s.begun k n)
Step-FewSections (load_period r lt e) few = few
Step-FewSections (end_section r k old lt room e) few = few
Step-FewSections (other_flip f) few = few
Step-FewSections (start f) few = few
Step-FewSections (load_end st k e lt) few = few
Step-FewSections (ends_loaded st e) few = few
Step-FewSections (load_begin st k e lt) few = few
Step-FewSections (begins_loaded st e) few = few
Step-FewSections (lock e) few = few

pub Step-Inv : {m n : ℕ} {s t : System} → Step m n s t → FewSections n s → Inv m n s → Inv m n t
Step-Inv {s} (load_period r lt e) few i = load_period-Inv i r lt s.period e
Step-Inv (begin_section r k lt room e) few i = begin_section-Inv i r lt k room e
Step-Inv (end_section r k old lt room e) few i = end_section-Inv i r lt k old room e
Step-Inv (other_flip f) few i = other_flip-Inv i f
Step-Inv (start f) few i = start-Inv i
Step-Inv (load_end st k e lt) few i = load_end-Inv i st k e lt
Step-Inv (ends_loaded st e) few i = ends_loaded-Inv i st e
Step-Inv (load_begin st k e lt) few i = load_begin-Inv i st k e lt
Step-Inv (begins_loaded st e) few i = begins_loaded-Inv i st e few
Step-Inv (lock e) few i = lock-Inv i e

sum_to-zero : (p n : ℕ) → sum_to p (λ k. 0) n ≡ 0
unfolding sum_to
sum_to-zero p zero = refl
sum_to-zero p (suc n) = ground (arith, sum_to-zero p n)

total-zero : {A : Type 0} (w : A → ℕ) (m : ℕ) (a : A) → w a ≡ 0 → total w m (λ r. a) ≡ 0
unfolding total
total-zero w zero a h = refl
total-zero w (suc m) a h = omega (arith, total-zero w m a h)

initial-Inv : (m n : ℕ) → Inv m n initial
initial-Inv m n = record {
  range = omega arith;
  balance = λ p. omega (arith, sum_to-zero p n, total-zero (in_period p) m idle refl);
  cleared = λ p l h. cc;
  at = tt;
}

pub Reach-Inv : {m n : ℕ} {s : System} → Reach m n s → FewSections n s → Inv m n s
Reach-Inv {m} {n} here few = initial-Inv m n
Reach-Inv (next r st) few =
    let few' = Step-FewSections st few in Step-Inv st few' (Reach-Inv r few')

-- No counter belongs to a third period, so no reader is inside one.
sum_to-other : (p : ℕ) (f : ℕ → ℕ) (n : ℕ) → 2 ≤ p → sum_to p f n ≡ 0
unfolding sum_to
sum_to-other p f zero h = refl
sum_to-other p f (suc n) h = ground (arith, sum_to-other p f n)

-- In every interleaving with any number of readers in which fewer than 2^64 sections began in each
-- period: when the wait for a grace period returns, every critical section that was under way when it
-- was called has ended.
pub grace_period :
    {m n : ℕ} {s : System}
    → Reach m n s
    → FewSections n s
    → s.pc ≡ done
    → (r p : ℕ) → r < m
    → ¬ (s.readers r ≡ inside p true)
grace_period {m} {n} {s} reach few finished r p lt e =
    let inv = Reach-Inv reach few in
    let quiet : (s.active 0 ≡ false) × (s.active 1 ≡ false) = subst (PcInv m n s) finished inv.at in
    let some_old = rw e at (total-ge (old_in p) m s.readers r lt) in
    let some_inside = rw e at (total-ge (in_period p) m s.readers r lt) in
    absurd (period p quiet inv some_old some_inside)
  where
    period :
        (p : ℕ)
        → (s.active 0 ≡ false) × (s.active 1 ≡ false)
        → Inv m n s
        → (if p == p then 1 else 0) ≤ total (old_in p) m s.readers
        → (if p == p then 1 else 0) ≤ total (in_period p) m s.readers
        → ⊥
    period zero quiet inv some_old some_inside = omega (arith, inv.cleared 0 (omega arith) quiet.0)
    period (suc zero) quiet inv some_old some_inside =
        omega (arith, inv.cleared 1 (omega arith) quiet.1)
    period (suc (suc p)) quiet inv some_old some_inside =
        ground
          (arith, inv.balance (suc (suc p)), sum_to-other (suc (suc p)) s.begun n (omega arith))
