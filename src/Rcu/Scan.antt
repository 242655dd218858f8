-- ===== src/Rcu/Scan.antt =====
-- The two loops of `check_active_readers` of src/rcu.c, on uintptr_t sums that wrap.
use libside.Common.{ℕ, zero, suc, ◌+◌, ◌≤◌, ◌<◌, ◌≡◌, true, not, arith, ◌==◌}
use libside.Rcu.{
  PercpuCount, GpState, word_mod, wsub, wadd, subtract_ends, add_begins, check_active_readers,
}

-- The sections that ended, and that began, on `n` CPUs from the `i`-th on.
unfoldable pub total_ends : ℕ → (ℕ → PercpuCount) → ℕ → ℕ
total_ends zero c i = 0
total_ends (suc n) c i = (c i).ended + (c i).rseq_end + total_ends n c (suc i)

unfoldable pub total_begins : ℕ → (ℕ → PercpuCount) → ℕ → ℕ
total_begins zero c i = 0
total_begins (suc n) c i = (c i).begin + (c i).rseq_begin + total_begins n c (suc i)

subtract_ends-wsub :
    (n : ℕ) (c : ℕ → PercpuCount) (i sum : ℕ)
    → sum < word_mod
    → subtract_ends n c i sum ≡ wsub sum (total_ends n c i)
unfolding subtract_ends total_ends
subtract_ends-wsub zero c i sum small = omega arith
subtract_ends-wsub (suc n) c i sum small = omega (
  arith,
  subtract_ends-wsub n c (suc i) (wsub (wsub sum (c i).ended) (c i).rseq_end) (omega arith),
)

add_begins-wadd :
    (n : ℕ) (c : ℕ → PercpuCount) (i sum : ℕ)
    → sum < word_mod
    → add_begins n c i sum ≡ wadd sum (total_begins n c i)
unfolding add_begins total_begins
add_begins-wadd zero c i sum small = omega arith
add_begins-wadd (suc n) c i sum small = omega (
  arith,
  add_begins-wadd n c (suc i) (wadd (wadd sum (c i).begin) (c i).rseq_begin) (omega arith),
)

-- On counters that stand still, with at least as many begins as ends and fewer than 2^64 sections open,
-- the scan of an active period reports readers exactly if some section that began has not ended: the
-- wrapping sums lose nothing.
pub check_active_readers_lem :
    (gp : GpState) (p : ℕ)
    → let b = total_begins gp.nr_cpus (λ cpu. gp.count cpu p) 0 in
      let e = total_ends gp.nr_cpus (λ cpu. gp.count cpu p) 0 in
      e ≤ b → b < e + word_mod → check_active_readers gp p true ≡ not (b == e)
unfolding check_active_readers
check_active_readers_lem gp p more few =
    let c = λ (cpu : ℕ). gp.count cpu p in
    rw
      (
        subtract_ends-wsub gp.nr_cpus c 0 0 (omega arith),
        add_begins-wadd gp.nr_cpus c 0 (wsub 0 (total_ends gp.nr_cpus c 0)) (omega arith),
      )
      (ground arith)
