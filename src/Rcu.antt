-- ===== src/Rcu.antt =====
-- src/rcu.c, src/rcu.h: the state of a grace period domain, its read side, and the scan of the
-- readers' counters. Each CPU has, for each of the two periods, counters of the sections that began
-- and ended, incremented by restartable sequences (`rseq_…`) or by atomic instructions.
pub mod Counting
pub mod Scan
pub mod Grace
mod Examples
use libside.Common.{
  ℕ, zero, suc, ◌+◌, ◌-◌, ◌%◌, ◌^◌, Bool, true, false, not, ◌||◌, ◌&&◌, Option, none, some, ltb,
  ◌==◌, if◌then◌else◌, update, Outcome, ok, aborted, fault,
}

pub record PercpuCount : Type 0 where
  pub begin : ℕ
  pub rseq_begin : ℕ
  pub ended : ℕ
  pub rseq_end : ℕ

abbrev pub word_mod : ℕ
word_mod = 2 ^ 64

-- `count` is indexed by CPU, then by period; `futex` tells whether the word holds -1.
pub record GpState : Type 0 where
  pub nr_cpus : ℕ
  pub count : ℕ → ℕ → PercpuCount
  pub futex : Bool
  pub period : ℕ

abbrev pub zero_count : PercpuCount
zero_count = record { begin = 0; rseq_begin = 0; ended = 0; rseq_end = 0 }

-- What the system offers: the number of possible CPUs, memory for their counters, and the two
-- mechanisms that replace barriers and atomics.
pub record Machine : Type 0 where
  pub possible_cpus : ℕ
  pub calloc_ok : Bool
  pub has_membarrier : Bool
  pub has_rseq : Bool

-- The domain, and `side_rcu_rseq_membarrier_available` (which is set and never reset).
unfoldable pub gp_init : Machine → (available : Bool) → Outcome (GpState × Bool)
gp_init m available =
    if (m.possible_cpus == 0) || not m.calloc_ok
    then aborted
    else ok (
      record { nr_cpus = m.possible_cpus; count = λ cpu p. zero_count; futex = false; period = 0 },
      available || (m.has_membarrier && m.has_rseq),
    )

abbrev pub set_count : GpState → ℕ → ℕ → PercpuCount → GpState
set_count gp cpu p c = record gp { count = update gp.count cpu (update (gp.count cpu) p c) }

-- `struct side_rcu_read_state`: whose counters were incremented.
pub record ReadState : Type 0 where
  pub cpu : ℕ
  pub period : ℕ

-- How the system answers a reader: the CPU that rseq reports, whether the restartable sequence is
-- available and committed, and the CPU of sched_getcpu() (none when negative).
pub record Answers : Type 0 where
  pub rseq_cpu : ℕ
  pub committed : Bool
  pub sched_cpu : Option ℕ

abbrev fallback_cpu : Option ℕ → ℕ
fallback_cpu none = 0
fallback_cpu (some cpu) = cpu

-- A CPU number beyond the array is a fault.
unfoldable pub read_begin : GpState → Answers → Outcome (GpState × ReadState)
read_begin gp a =
    let p = gp.period in
    let slow = fallback_cpu a.sched_cpu in
    let c = gp.count a.rseq_cpu p in
    let d = gp.count slow p in
    if a.committed
    then (if ltb a.rseq_cpu gp.nr_cpus
        then ok (
          set_count gp a.rseq_cpu p (record c { rseq_begin = (c.rseq_begin + 1) % word_mod }),
          record { cpu = a.rseq_cpu; period = p },
        )
        else fault)
    else (if ltb slow gp.nr_cpus
        then ok (
          set_count gp slow p (record d { begin = (d.begin + 1) % word_mod }),
          record { cpu = slow; period = p },
        )
        else fault)

-- `side_rcu_wake_up_gp`
abbrev wake_up_gp : GpState → GpState
wake_up_gp gp = record gp { futex = false }

unfoldable pub read_end : GpState → ReadState → (committed : Bool) → GpState
read_end gp r committed =
    let c = gp.count r.cpu r.period in
    wake_up_gp (
      set_count gp r.cpu r.period (
        if committed
        then record c { rseq_end = (c.rseq_end + 1) % word_mod }
        else record c { ended = (c.ended + 1) % word_mod }))

-- `sum -= e` and `sum += b` on uintptr_t.
abbrev pub wsub : ℕ → ℕ → ℕ
wsub a e = (a + (word_mod - e % word_mod)) % word_mod

abbrev pub wadd : ℕ → ℕ → ℕ
wadd a b = (a + b) % word_mod

-- The two loops of `check_active_readers` for one period, over the CPUs from `i` on, `n` of them.
unfoldable pub subtract_ends : ℕ → (ℕ → PercpuCount) → (i sum : ℕ) → ℕ
subtract_ends zero c i sum = sum
subtract_ends (suc n) c i sum =
    subtract_ends n c (suc i) (wsub (wsub sum (c i).ended) (c i).rseq_end)

unfoldable pub add_begins : ℕ → (ℕ → PercpuCount) → (i sum : ℕ) → ℕ
add_begins zero c i sum = sum
add_begins (suc n) c i sum = add_begins n c (suc i) (wadd (wadd sum (c i).begin) (c i).rseq_begin)

-- `check_active_readers` for one period, on counters that stand still.
unfoldable pub check_active_readers : GpState → ℕ → (active : Bool) → Bool
unfolding subtract_ends add_begins
check_active_readers gp p active =
    let c = λ (cpu : ℕ). gp.count cpu p in
    let sum = add_begins gp.nr_cpus c 0 (subtract_ends gp.nr_cpus c 0 0) in
    if active then not (sum == 0) else false
