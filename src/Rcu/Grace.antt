-- ===== src/Rcu/Grace.antt =====
-- `side_rcu_wait_grace_period` of src/rcu.c, one load or increment at a time, interleaved with any
-- number of readers. Memory is sequentially consistent here: the barriers (A) to (E) of the source
-- are what makes it so for the accesses in question.
--
-- A counter that the machine keeps modulo 2^64 is kept here as the number that it stands for, and so
-- are the sums of what a scan has read; the word that the code tests is computed from them.
pub mod Invariant
pub mod Updater
pub mod Safety
use libside.Common.{
  ℕ, zero, suc, ◌+◌, ◌-◌, ◌<◌, ◌≡◌, Bool, true, false, not, ◌&&◌, ◌==◌, if◌then◌else◌, update,
}
use libside.Rcu.{wsub}
use libside.Rcu.Counting.{period_of}

-- A reader in `side_rcu_read_begin`, with the period that it loaded, or inside its critical section;
-- `old` marks sections that were there when the grace period began.
pub data Reader : Type 0 where
  idle : Reader
  loaded : (period : ℕ) → Reader
  inside : (period : ℕ) (old : Bool) → Reader

-- The scan at the start, and those of the two calls of `wait_for_prev_period_readers`.
pub data Stage : Type 0 where
  fast first second : Stage

-- The next counter to load in a scan.
pub data Pc : Type 0 where
  off : Pc
  ends : Stage → ℕ → Pc
  begins : Stage → ℕ → Pc
  locking : Pc  -- before `gp_lock` is taken
  done : Pc

pub record System : Type 0 where
  pub readers : ℕ → Reader
  pub begun : ℕ → ℕ
  pub ended : ℕ → ℕ
  pub period : ℕ
  pub pc : Pc
  pub active : ℕ → Bool
  pub read_ends : ℕ → ℕ
  pub read_begins : ℕ → ℕ

abbrev pub mark : Reader → Reader
mark (inside p old) = inside p true
mark idle = idle
mark (loaded p) = loaded p

-- What `check_active_readers` makes of `active_readers[p]`.
abbrev pub still_active : System → ℕ → Bool
still_active s p = if s.active p then not (wsub (s.read_begins p) (s.read_ends p) == 0) else false

-- Where the updater goes on after a scan, and the period from there on.
abbrev pub enter_second : (period : ℕ) → (ℕ → Bool) → Pc × ℕ
enter_second q active = if active (1 - q) then (ends second 0, q) else (done, q)

abbrev pub after_first : (period : ℕ) → (ℕ → Bool) → Pc × ℕ
after_first q active = if active q then enter_second (1 - q) active else (done, q)

abbrev pub enter_first : (period : ℕ) → (ℕ → Bool) → Pc × ℕ
enter_first q active = if active (1 - q) then (ends first 0, q) else after_first q active

abbrev pub after_scan : Stage → (period : ℕ) → (ℕ → Bool) → Pc × ℕ
after_scan fast q active = if not (active 0) && not (active 1) then (done, q) else (locking, q)
after_scan first q active = enter_first q active
after_scan second q active = enter_second q active

-- The updater that is followed does not hold `gp_lock`, so that another one may flip the period.
abbrev pub lock_free : Pc → Bool
lock_free off = true
lock_free done = true
lock_free locking = true
lock_free (ends fast k) = true
lock_free (begins fast k) = true
lock_free (ends first k) = false
lock_free (ends second k) = false
lock_free (begins first k) = false
lock_free (begins second k) = false

abbrev pub resting : Pc → Bool
resting off = true
resting done = true
resting locking = false
resting (ends st k) = false
resting (begins st k) = false

-- `m` threads, `n` counters.
pub data Step (m n : ℕ) (s : System) : System → Type 0 where
  load_period :
      (r : ℕ)
      → r < m
      → s.readers r ≡ idle
      → Step m n s (record s { readers = update s.readers r (loaded s.period) })
  begin_section :
      (r k : ℕ)
      → r < m
      → k < n
      → s.readers r ≡ loaded (period_of k)
      → Step m n s (record s {
        readers = update s.readers r (inside (period_of k) false);
        begun = update s.begun k (s.begun k + 1);
      })
  end_section :
      (r k : ℕ) (old : Bool)
      → r < m
      → k < n
      → s.readers r ≡ inside (period_of k) old
      → Step m n s
          (record s { readers = update s.readers r idle; ended = update s.ended k (s.ended k + 1) })
  other_flip : lock_free s.pc ≡ true → Step m n s (record s { period = 1 - s.period })
  start :
      resting s.pc ≡ true
      → Step m n s (record s {
        readers = λ r. mark (s.readers r);
        pc = ends fast 0;
        active = λ p. true;
        read_ends = λ p. 0;
        read_begins = λ p. 0;
      })
  load_end :
      (st : Stage) (k : ℕ)
      → s.pc ≡ ends st k
      → k < n
      → Step m n s (record s {
        pc = ends st (suc k);
        read_ends =
            if s.active (period_of k)
            then update s.read_ends (period_of k) (s.read_ends (period_of k) + s.ended k)
            else s.read_ends;
      })
  ends_loaded : (st : Stage) → s.pc ≡ ends st n → Step m n s (record s { pc = begins st 0 })
  load_begin :
      (st : Stage) (k : ℕ)
      → s.pc ≡ begins st k
      → k < n
      → Step m n s (record s {
        pc = begins st (suc k);
        read_begins =
            if s.active (period_of k)
            then update s.read_begins (period_of k) (s.read_begins (period_of k) + s.begun k)
            else s.read_begins;
      })
  begins_loaded :
      (st : Stage)
      → s.pc ≡ begins st n
      → Step m n s (record s {
        pc = (after_scan st s.period (still_active s)).0;
        period = (after_scan st s.period (still_active s)).1;
        active = still_active s;
        read_ends = λ p. 0;
        read_begins = λ p. 0;
      })
  lock :
      s.pc ≡ locking
      → Step m n s (record s {
        pc = (enter_first s.period s.active).0;
        period = (enter_first s.period s.active).1;
        read_ends = λ p. 0;
        read_begins = λ p. 0;
      })

abbrev pub initial : System
initial = record {
  readers = λ r. idle;
  begun = λ k. 0;
  ended = λ k. 0;
  period = 0;
  pc = off;
  active = λ p. true;
  read_ends = λ p. 0;
  read_begins = λ p. 0;
}

pub data Reach (m n : ℕ) : System → Type 0 where
  here : Reach m n initial
  next : {s t : System} → Reach m n s → Step m n s t → Reach m n t
