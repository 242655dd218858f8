-- ===== src/Rcu/Grace/Updater.antt =====
-- Each step of the updater keeps the invariant.
use mathlib.Core.Path.{subst}
use libside.Common.{
  ℕ, suc, ◌+◌, ◌-◌, ◌≤◌, ◌<◌, ◌≡◌, refl, Bool, true, false, not, ◌&&◌, arith, if◌then◌else◌, update,
  Bool-cases, inl, inr,
}
use libside.Rcu.{word_mod}
use libside.Rcu.Counting.{total, total_mono, period_of, sum_to}
use libside.Rcu.Grace.{
  Reader, idle, loaded, inside, Stage, fast, first, second, Pc, off, ends, begins, locking, done,
  System, mark, still_active, enter_second, after_first, enter_first, after_scan, lock_free,
}
use libside.Rcu.Grace.Invariant.{in_period, old_in, StageInv, PcInv, Inv}

-- Where a decision sends the updater, the invariant holds again.
abbrev pub rescan : System → (ℕ → Bool) → Pc × ℕ → System
rescan s active d = record s {
  pc = d.0;
  period = d.1;
  active = active;
  read_ends = λ p. 0;
  read_begins = λ p. 0;
}

abbrev Good : (m n : ℕ) → System → (ℕ → Bool) → Pc × ℕ → Type 0
Good m n s active d = (d.1 < 2) × PcInv m n (rescan s active d) d.0

module _ (m n : ℕ) (s : System) (active : ℕ → Bool) (q : ℕ) (small : q < 2) where
  enter_second-Good : active q ≡ false → Good m n s active (enter_second q active)
  enter_second-Good clear = elim (Bool-cases (active (1 - q))) [
    | inl more ↦ rw more (small, (omega arith, (λ p. omega arith), (λ p. refl), clear))
    | inr none_left ↦ rw none_left (small, (ground arith, ground arith))
  ]

module _ (m n : ℕ) (s : System) (active : ℕ → Bool) (q : ℕ) (small : q < 2) where
  after_first-Good : active (1 - q) ≡ false → Good m n s active (after_first q active)
  after_first-Good clear = elim (Bool-cases (active q)) [
    | inl more ↦ rw more (enter_second-Good m n s active (1 - q) (omega arith) clear)
    | inr none_left ↦ rw none_left (small, (ground arith, ground arith))
  ]

  enter_first-Good : Good m n s active (enter_first q active)
  enter_first-Good = elim (Bool-cases (active (1 - q))) [
    | inl more ↦ rw more (small, (omega arith, (λ p. omega arith), (λ p. refl), tt))
    | inr clear ↦ rw clear (after_first-Good clear)
  ]

  after_scan-Good : (st : Stage) → StageInv active q st → Good m n s active (after_scan st q active)
  after_scan-Good fast i = elim (Bool-cases (not (active 0) && not (active 1))) [
    | inl clear ↦ rw clear (small, (ground arith, ground arith))
    | inr more ↦ rw more (small, tt)
  ]
  after_scan-Good first i = enter_first-Good
  after_scan-Good second i = enter_second-Good m n s active q small i

module _ {m n : ℕ} {s : System} (inv : Inv m n s) where
  open inv use {range, balance, cleared, at}

  pub other_flip-Inv : lock_free s.pc ≡ true → Inv m n (record s { period = 1 - s.period })
  other_flip-Inv free = record {
    range = omega arith;
    balance = balance;
    cleared = cleared;
    at = flipped s.pc free at;
  }
    where
      flipped :
          (pc : Pc)
          → lock_free pc ≡ true
          → PcInv m n s pc
          → PcInv m n (record s { period = 1 - s.period }) pc
      flipped off f i = i
      flipped locking f i = i
      flipped done f i = i
      flipped (ends fast k) f i = i
      flipped (ends first k) f i = cc
      flipped (ends second k) f i = cc
      flipped (begins fast k) f i = i
      flipped (begins first k) f i = cc
      flipped (begins second k) f i = cc

  pub start-Inv : Inv m n (record s {
    readers = λ r. mark (s.readers r);
    pc = ends fast 0;
    active = λ p. true;
    read_ends = λ p. 0;
    read_begins = λ p. 0;
  })
  start-Inv = record {
    range = range;
    balance = λ p. omega (
      arith,
      balance p,
      total_mono (in_period p) (in_period p) m (λ r. mark (s.readers r)) s.readers
          (λ r. le p (s.readers r)),
      total_mono (in_period p) (in_period p) m s.readers (λ r. mark (s.readers r))
          (λ r. ge p (s.readers r)),
    );
    cleared = λ p l h. cc;
    at = (omega arith, (λ p. omega arith), (λ p. refl), tt);
  }
    where
      le : (p : ℕ) (r : Reader) → in_period p (mark r) ≤ in_period p r
      le p idle = omega arith
      le p (loaded q) = omega arith
      le p (inside q old) = omega arith

      ge : (p : ℕ) (r : Reader) → in_period p r ≤ in_period p (mark r)
      ge p idle = omega arith
      ge p (loaded q) = omega arith
      ge p (inside q old) = omega arith

  old-le : (p : ℕ) → total (old_in p) m s.readers ≤ total (in_period p) m s.readers
  old-le p = total_mono (old_in p) (in_period p) m s.readers s.readers (λ r. le (s.readers r))
    where
      le : (r : Reader) → old_in p r ≤ in_period p r
      le idle = omega arith
      le (loaded q) = omega arith
      le (inside q true) = omega arith
      le (inside q false) = ground arith

  pub load_end-Inv :
      (st : Stage) (k : ℕ)
      → s.pc ≡ ends st k
      → k < n
      → Inv m n (record s {
        pc = ends st (suc k);
        read_ends =
            if s.active (period_of k)
            then update s.read_ends (period_of k) (s.read_ends (period_of k) + s.ended k)
            else s.read_ends;
      })
  unfolding sum_to
  load_end-Inv st k e room =
      let (a, b, c, d) = subst (PcInv m n s) e at in
      record {
        range = range;
        balance = balance;
        cleared = cleared;
        at = (omega arith, (λ p. ground (arith, b p, b (period_of k))), c, d);
      }

  pub ends_loaded-Inv : (st : Stage) → s.pc ≡ ends st n → Inv m n (record s { pc = begins st 0 })
  unfolding sum_to
  ends_loaded-Inv st e =
      let (a, b, c, d) = subst (PcInv m n s) e at in
      record {
        range = range;
        balance = balance;
        cleared = cleared;
        at = (
          omega arith,
          (λ p h. omega (arith, b p, c p, balance p, old-le p)),
          (λ p. omega (arith, c p)),
          d,
        );
      }

  pub load_begin-Inv :
      (st : Stage) (k : ℕ)
      → s.pc ≡ begins st k
      → k < n
      → Inv m n (record s {
        pc = begins st (suc k);
        read_begins =
            if s.active (period_of k)
            then update s.read_begins (period_of k) (s.read_begins (period_of k) + s.begun k)
            else s.read_begins;
      })
  unfolding sum_to
  load_begin-Inv st k e room =
      let (a, b, c, d) = subst (PcInv m n s) e at in
      record {
        range = range;
        balance = balance;
        cleared = cleared;
        at = (
          omega arith,
          (λ p h. ground (arith, b p)),
          (λ p. ground (arith, c p, c (period_of k))),
          d,
        );
      }

  still_active-cleared :
      (st : Stage)
      → s.pc ≡ begins st n
      → ((p : ℕ) → sum_to p s.begun n < word_mod)
      → (p : ℕ) → p < 2
      → still_active s p ≡ false
      → total (old_in p) m s.readers ≡ 0
  still_active-cleared st e few p l h =
      let (a, b, c, d) = subst (PcInv m n s) e at in ground (arith, cleared p l, b p, c p, few p)

  kept : (st : Stage) → StageInv s.active s.period st → StageInv (still_active s) s.period st
  kept fast d = tt
  kept first d = tt
  kept second d = rw d refl

  pub begins_loaded-Inv :
      (st : Stage)
      → s.pc ≡ begins st n
      → ((p : ℕ) → sum_to p s.begun n < word_mod)
      → Inv m n (rescan s (still_active s) (after_scan st s.period (still_active s)))
  begins_loaded-Inv st e few =
      let (a, b, c, d) = subst (PcInv m n s) e at in
      let good = after_scan-Good m n s (still_active s) s.period range st (kept st d) in
      record {
        range = good.0;
        balance = balance;
        cleared = still_active-cleared st e few;
        at = good.1;
      }

  pub lock-Inv : s.pc ≡ locking → Inv m n (rescan s s.active (enter_first s.period s.active))
  lock-Inv e =
      let good = enter_first-Good m n s s.active s.period range in
      record { range = good.0; balance = balance; cleared = cleared; at = good.1 }
