-- ===== src/Ring/Distinct.antt =====
-- Membership and distinctness in lists put together.
use libside.Common.{ℕ, ◌≡◌, refl, true, false, ◌||◌, List, [], ◌∷◌, ◌++◌, arith}
use libside.Ring.Chain.{has, AllDistinct}

pub has-append : (a : ℕ) (xs ys : List ℕ) → has a (xs ++ ys) ≡ (has a xs || has a ys)
has-append a [] ys = refl
has-append a (x ∷ xs) ys = ground (arith, has-append a xs ys)

pub AllDistinct-snoc :
    (xs : List ℕ) (y : ℕ) → AllDistinct xs → has y xs ≡ false → AllDistinct (xs ++ y ∷ [])
AllDistinct-snoc [] y d o = (refl, tt)
AllDistinct-snoc (x ∷ xs) y d o =
    (ground (arith, has-append x xs (y ∷ [])), AllDistinct-snoc xs y d.1 (ground arith))

pub AllDistinct-remove :
    (xs : List ℕ) (y : ℕ) (ys : List ℕ) → AllDistinct (xs ++ y ∷ ys) → AllDistinct (xs ++ ys)
AllDistinct-remove [] y ys d = d.1
AllDistinct-remove (x ∷ xs) y ys d =
    (ground (arith, has-append x xs (y ∷ ys), has-append x xs ys), AllDistinct-remove xs y ys d.1)

pub AllDistinct-append :
    (xs ys : List ℕ)
    → AllDistinct xs
    → AllDistinct ys
    → ((a : ℕ) → has a xs ≡ true → has a ys ≡ false)
    → AllDistinct (xs ++ ys)
AllDistinct-append [] ys d e o = e
AllDistinct-append (x ∷ xs) ys d e o = (
  ground (arith, has-append x xs ys, o x),
  AllDistinct-append xs ys d.1 e (λ a m. o a (ground arith)),
)

pub AllDistinct-parts :
    (xs : List ℕ) (y : ℕ) (ys : List ℕ)
    → AllDistinct (xs ++ y ∷ ys)
    → AllDistinct xs × AllDistinct ys × (has y xs ≡ false) × (has y ys ≡ false)
AllDistinct-parts [] y ys d = (tt, d.1, refl, d.0)
AllDistinct-parts (x ∷ xs) y ys d =
    let (a, b, c, e) = AllDistinct-parts xs y ys d.1 in
    ((ground (arith, has-append x xs (y ∷ ys)), a), b, ground (arith, has-append x xs (y ∷ ys)), e)

pub AllDistinct-apart :
    (xs ys : List ℕ) (a : ℕ) → AllDistinct (xs ++ ys) → has a xs ≡ true → has a ys ≡ false
AllDistinct-apart [] ys a d m = absurd (ground arith)
AllDistinct-apart (x ∷ xs) ys a d m =
    ground (arith, has-append x xs ys, AllDistinct-apart xs ys a d.1)
