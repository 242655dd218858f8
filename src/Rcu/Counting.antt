-- ===== src/Rcu/Counting.antt =====
-- Sums over threads and over counters, and how they change at one place.
use libside.Common.{
  ℕ, zero, suc, ◌+◌, ◌/◌, ◌%◌, ◌≤◌, ◌<◌, ◌≡◌, refl, ◌&&◌, arith, ltb, ◌==◌, if◌then◌else◌, update,
  Bool-cases, inl, inr,
}

module _ {A : Type 0} (w : A → ℕ) where
  -- The weights of the first `m` threads.
  unfoldable pub total : ℕ → (ℕ → A) → ℕ
  total zero f = 0
  total (suc m) f = total m f + w (f m)

  pub total-spared :
      (m : ℕ) (f : ℕ → A) (r : ℕ) (a : A) → m ≤ r → total m (update f r a) ≡ total m f
  unfolding total
  total-spared zero f r a h = refl
  total-spared (suc m) f r a h = ground (arith, total-spared m f r a)

  pub total-update :
      (m : ℕ) (f : ℕ → A) (r : ℕ) (a : A)
      → r < m
      → total m (update f r a) + w (f r) ≡ total m f + w a
  unfolding total
  total-update zero f r a h = absurd (omega arith)
  total-update (suc m) f r a h = elim (Bool-cases (ltb r m)) [
    | inl below ↦ ground (arith, total-update m f r a)
    | inr last ↦ ground (arith, total-spared m f r a)
  ]

  pub total-ge : (m : ℕ) (f : ℕ → A) (r : ℕ) → r < m → w (f r) ≤ total m f
  unfolding total
  total-ge zero f r h = absurd (omega arith)
  total-ge (suc m) f r h = elim (Bool-cases (ltb r m)) [
    | inl below ↦ ground (arith, total-ge m f r)
    | inr last ↦ ground arith
  ]

pub total_mono :
    {A B : Type 0} (v : A → ℕ) (w : B → ℕ) (m : ℕ) (f : ℕ → A) (g : ℕ → B)
    → ((r : ℕ) → v (f r) ≤ w (g r))
    → total v m f ≤ total w m g
unfolding total
total_mono v w zero f g h = omega arith
total_mono v w (suc m) f g h = omega (arith, h m, total_mono v w m f g h)

-- The counters of a CPU stand in the order of the scan: for each period, the one that atomic
-- instructions increment and the one of restartable sequences.
abbrev pub period_of : ℕ → ℕ
period_of k = k / 2 % 2

-- The counters of period `p` among the first `k`.
unfoldable pub sum_to : ℕ → (ℕ → ℕ) → ℕ → ℕ
sum_to p f zero = 0
sum_to p f (suc k) = sum_to p f k + (if period_of k == p then f k else 0)

pub sum_to-update :
    (p : ℕ) (f : ℕ → ℕ) (j n : ℕ)
    → sum_to p (update f j (f j + 1)) n
      ≡ sum_to p f n + (if ltb j n && (period_of j == p) then 1 else 0)
unfolding sum_to
sum_to-update p f j zero = ground arith
sum_to-update p f j (suc n) = ground (arith, sum_to-update p f j n)

pub sum_to_mono : (p : ℕ) (f : ℕ → ℕ) (k n : ℕ) → k ≤ n → sum_to p f k ≤ sum_to p f n
unfolding sum_to
sum_to_mono p f k zero h = ground arith
sum_to_mono p f k (suc n) h = elim (Bool-cases (ltb k (suc n))) [
  | inl below ↦ ground (arith, sum_to_mono p f k n)
  | inr last ↦ ground arith
]
