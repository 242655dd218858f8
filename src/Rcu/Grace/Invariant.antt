-- ===== src/Rcu/Grace/Invariant.antt =====
-- What a scan has read, against the readers that are still inside.
use libside.Common.{ℕ, ◌+◌, ◌≤◌, ◌<◌, ◌≡◌, Bool, true, false, arith, ◌==◌, if◌then◌else◌, update}
use libside.Rcu.Counting.{total, total-update, period_of, sum_to, sum_to-update}
use libside.Rcu.Grace.{
  Reader, idle, loaded, inside, Stage, fast, first, second, Pc, off, ends, begins, locking, done,
  System,
}

abbrev pub in_period : ℕ → Reader → ℕ
in_period p idle = 0
in_period p (loaded q) = 0
in_period p (inside q old) = if q == p then 1 else 0

abbrev pub old_in : ℕ → Reader → ℕ
old_in p idle = 0
old_in p (loaded q) = 0
old_in p (inside q false) = 0
old_in p (inside q true) = if q == p then 1 else 0

abbrev pub StageInv : (ℕ → Bool) → ℕ → Stage → Type 0
StageInv active period fast = Unit
StageInv active period first = Unit
StageInv active period second = active period ≡ false

-- While the ends are loaded, no more were read than there are; while the begins are loaded, those
-- already read and those still to come outweigh the ends that were read and the old sections.
abbrev pub PcInv : (m n : ℕ) → System → Pc → Type 0
PcInv m n s off = Unit
PcInv m n s locking = Unit
PcInv m n s (ends st k) =
    (k ≤ n)
    × ((p : ℕ) → s.read_ends p ≤ sum_to p s.ended k)
    × ((p : ℕ) → s.read_begins p ≡ 0)
    × StageInv s.active s.period st
PcInv m n s (begins st k) =
    (k ≤ n)
    × ((p : ℕ)
        → s.active p ≡ true
        → s.read_ends p + total (old_in p) m s.readers + sum_to p s.begun k
          ≤ s.read_begins p + sum_to p s.begun n)
    × ((p : ℕ) → s.read_begins p ≤ sum_to p s.begun k)
    × StageInv s.active s.period st
PcInv m n s done = (s.active 0 ≡ false) × (s.active 1 ≡ false)

pub record Inv (m n : ℕ) (s : System) : Type 0 where
  pub range : s.period < 2
  pub balance : (p : ℕ) → sum_to p s.ended n + total (in_period p) m s.readers ≡ sum_to p s.begun n
  pub cleared : (p : ℕ) → p < 2 → s.active p ≡ false → total (old_in p) m s.readers ≡ 0
  pub at : PcInv m n s s.pc

-- A step of a reader: it brings no old section, and loses no count.
record Gain (m n : ℕ) (s : System) (rs : ℕ → Reader) (bs es : ℕ → ℕ) : Type 0 where
  olds : (p : ℕ) → total (old_in p) m rs ≤ total (old_in p) m s.readers
  ends_kept : (p k : ℕ) → sum_to p s.ended k ≤ sum_to p es k
  begins_kept : (p k : ℕ) → sum_to p s.begun k ≤ sum_to p bs k
  begins_ahead :
      (p k : ℕ) → k ≤ n → sum_to p bs k + sum_to p s.begun n ≤ sum_to p s.begun k + sum_to p bs n

Gain-PcInv :
    (m n : ℕ) (s : System) (rs : ℕ → Reader) (bs es : ℕ → ℕ)
    → Gain m n s rs bs es
    → (pc : Pc) → PcInv m n s pc
    → PcInv m n (record s { readers = rs; begun = bs; ended = es }) pc
Gain-PcInv m n s rs bs es g off i = i
Gain-PcInv m n s rs bs es g locking i = i
Gain-PcInv m n s rs bs es g done i = i
Gain-PcInv m n s rs bs es g (ends st k) (a, b, c, d) =
    (a, (λ p. omega (arith, b p, g.ends_kept p k)), c, d)
Gain-PcInv m n s rs bs es g (begins st k) (a, b, c, d) = (
  a,
  (λ p h. omega (arith, b p h, g.olds p, g.begins_ahead p k a)),
  (λ p. omega (arith, c p, g.begins_kept p k)),
  d,
)

module _ {m n : ℕ} {s : System} (inv : Inv m n s) (r : ℕ) (lt : r < m) where
  open inv use {range, balance, cleared, at}

  pub load_period-Inv :
      (q : ℕ) → s.readers r ≡ idle → Inv m n (record s { readers = update s.readers r (loaded q) })
  load_period-Inv q e = record {
    range = range;
    balance = λ p. ground (arith, balance p, total-update (in_period p) m s.readers r (loaded q));
    cleared = λ p l h. ground (arith, cleared p, total-update (old_in p) m s.readers r (loaded q));
    at =
        Gain-PcInv m n s _ s.begun s.ended
          (record {
            olds = λ p. ground (arith, total-update (old_in p) m s.readers r (loaded q));
            ends_kept = λ p k. omega arith;
            begins_kept = λ p k. omega arith;
            begins_ahead = λ p k h. omega arith;
          })
          s.pc at;
  }

  pub begin_section-Inv :
      (k : ℕ)
      → k < n
      → s.readers r ≡ loaded (period_of k)
      → Inv m n (record s {
        readers = update s.readers r (inside (period_of k) false);
        begun = update s.begun k (s.begun k + 1);
      })
  begin_section-Inv k room e = record {
    range = range;
    balance = λ p. ground (
      arith,
      balance p,
      total-update (in_period p) m s.readers r (inside (period_of k) false),
      sum_to-update p s.begun k n,
    );
    cleared = λ p l h.
        ground
          (arith, cleared p, total-update (old_in p) m s.readers r (inside (period_of k) false));
    at =
        Gain-PcInv m n s _ _ s.ended
          (record {
            olds = λ p.
                ground (arith, total-update (old_in p) m s.readers r (inside (period_of k) false));
            ends_kept = λ p j. omega arith;
            begins_kept = λ p j. ground (arith, sum_to-update p s.begun k j);
            begins_ahead =
                λ p j h. ground (arith, sum_to-update p s.begun k j, sum_to-update p s.begun k n);
          })
          s.pc at;
  }

  pub end_section-Inv :
      (k : ℕ) (old : Bool)
      → k < n
      → s.readers r ≡ inside (period_of k) old
      → Inv m n
          (record s { readers = update s.readers r idle; ended = update s.ended k (s.ended k + 1) })
  end_section-Inv k old room e = record {
    range = range;
    balance = λ p. ground (
      arith,
      balance p,
      total-update (in_period p) m s.readers r idle,
      sum_to-update p s.ended k n,
    );
    cleared = λ p l h. ground (arith, cleared p, total-update (old_in p) m s.readers r idle);
    at =
        Gain-PcInv m n s _ s.begun _
          (record {
            olds = λ p. ground (arith, total-update (old_in p) m s.readers r idle);
            ends_kept = λ p j. ground (arith, sum_to-update p s.ended k j);
            begins_kept = λ p j. omega arith;
            begins_ahead = λ p j h. omega arith;
          })
          s.pc at;
  }
