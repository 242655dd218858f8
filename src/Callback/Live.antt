-- ===== src/Callback/Live.antt =====
-- The callbacks that the code reaches in an array: those before the first NULL.
use libside.Common.{
  ℕ, zero, suc, ◌+◌, ◌≤◌, ◌<◌, ◌≡◌, ◌≢◌, refl, Option, none, some, List, [], ◌∷◌, arith, ◌==◌,
  if◌then◌else◌, false, Bool-cases, inl, inr, length, Outcome, ok, aborted, fault, ◌>>=◌,
}
use libside.Callback.{SideCallback, entry, same_callback, lookup_from}
use libside.Callback.Bytes.{Block}

abbrev pub prepend : SideCallback → Outcome (List SideCallback) → Outcome (List SideCallback)
prepend cb m = m >>= λ xs. ok (cb ∷ xs)

-- The entries before the first NULL among the `n` that stand in the block from index `i`.
unfoldable pub live_from : ℕ → Block → ℕ → Outcome (List SideCallback)
live_from zero b i = fault
live_from (suc n) b i =
    let rest = live_from n b (suc i) in
    if (entry b i).call == 0 then ok [] else prepend (entry b i) rest

unfoldable pub position : ℕ → List SideCallback → SideCallback → Option ℕ
position i [] cb = none
position i (x ∷ xs) cb =
    let rest = position (suc i) xs cb in if same_callback x cb then some i else rest

-- With a NULL inside the block the walk ends, and no later than there.
pub live_from-total :
    (n : ℕ) (b : Block) (i j : ℕ)
    → (entry b j).call ≡ 0
    → i ≤ j
    → j < i + n
    → (xs : List SideCallback) × (live_from n b i ≡ ok xs) × (length xs + i ≤ j)
unfolding live_from
live_from-total zero b i j null l u = absurd (omega arith)
live_from-total (suc n) b i j null l u = elim (Bool-cases ((entry b i).call == 0)) [
  | inl end ↦ ([], rw end, omega arith)
  | inr more ↦
      let (xs, e, short) = live_from-total n b (suc i) j null (ground arith) (omega arith) in
      (entry b i ∷ xs, rw (more, e) refl, omega arith)
]

pub prepend-ok :
    (cb : SideCallback) (m : Outcome (List SideCallback)) {ys : List SideCallback}
    → prepend cb m ≡ ok ys
    → (xs : List SideCallback) × (m ≡ ok xs) × (ys ≡ cb ∷ xs)
prepend-ok cb (ok xs) h = (xs, refl, cc)
prepend-ok cb aborted h = cc
prepend-ok cb fault h = cc

pub live_from-stop :
    (n : ℕ) (b : Block) (i : ℕ) → (entry b i).call ≡ 0 → live_from (suc n) b i ≡ ok []
unfolding live_from
live_from-stop n b i null = ground arith

pub live_from-cons :
    (n : ℕ) (b : Block) (i : ℕ) {xs : List SideCallback} (cb : SideCallback)
    → entry b i ≡ cb
    → cb.call ≢ 0
    → live_from n b (suc i) ≡ ok xs
    → live_from (suc n) b i ≡ ok (cb ∷ xs)
unfolding live_from
live_from-cons n b i cb here usable rest =
    let more : ((entry b i).call == 0) ≡ false = rw here (ground arith) in rw (more, rest, here)

-- The code's search is the search among the reachable callbacks.
pub lookup_from-live :
    (n : ℕ) (b : Block) (i : ℕ) (cb : SideCallback) {xs : List SideCallback}
    → live_from n b i ≡ ok xs
    → lookup_from n b i cb ≡ ok (position i xs cb)
unfolding live_from lookup_from position
lookup_from-live zero b i cb h = cc
lookup_from-live (suc n) b i cb {xs} h = elim (Bool-cases ((entry b i).call == 0)) [
  | inl end ↦ let e : Outcome.ok [] ≡ ok xs = rw end at h in let nil : xs ≡ [] = cc in rw (end, nil)
  | inr more ↦
      let (ys, found, e) = prepend-ok (entry b i) (live_from n b (suc i)) (rw more at h) in
      rw (more, lookup_from-live n b (suc i) cb found, e) (ground arith)
]

pub position-lt :
    (i : ℕ) (xs : List SideCallback) (cb : SideCallback) (p : ℕ)
    → position i xs cb ≡ some p
    → (i ≤ p) × (p < i + length xs)
unfolding position
position-lt i [] cb p h = absurd (cc)
position-lt i (x ∷ xs) cb p h = elim (Bool-cases (same_callback x cb)) [
  | inl hit ↦ ground arith
  | inr miss ↦ ground (arith, position-lt (suc i) xs cb p)
]

pub live_from-head :
    (n : ℕ) (b : Block) (i : ℕ) {x : SideCallback} {xs : List SideCallback}
    → live_from n b i ≡ ok (x ∷ xs)
    → entry b i ≡ x
unfolding live_from
live_from-head zero b i h = cc
live_from-head (suc n) b i {x} {xs} h = elim (Bool-cases ((entry b i).call == 0)) [
  | inl end ↦ let e : Outcome.ok [] ≡ ok (x ∷ xs) = rw end at h in cc
  | inr more ↦
      let (ys, found, e) = prepend-ok (entry b i) (live_from n b (suc i)) (rw more at h) in cc
]
