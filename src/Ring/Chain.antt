-- ===== src/Ring/Chain.antt =====
-- What a ring holds: the nodes that its links lead through, there and back.
use libside.Common.{ℕ, ◌≡◌, ◌≢◌, Bool, true, false, ◌||◌, List, [], ◌∷◌, ◌++◌, ◌==◌, arith}
use libside.Ring.{Links}

abbrev pub has : ℕ → List ℕ → Bool
has a [] = false
has a (x ∷ xs) = (a == x) || has a xs

-- From `p` the links lead through `xs` to `q`, and back.
abbrev pub Chain : Links → ℕ → List ℕ → ℕ → Type 0
Chain h p [] q = (h.next p ≡ q) × (h.prev q ≡ p)
Chain h p (x ∷ xs) q = (h.next p ≡ x) × (h.prev x ≡ p) × Chain h x xs q

abbrev pub AllDistinct : List ℕ → Type 0
AllDistinct [] = Unit
AllDistinct (x ∷ xs) = (has x xs ≡ false) × AllDistinct xs

-- The ring of `head` holds `xs`, in order.
pub record IsRing (h : Links) (head : ℕ) (xs : List ℕ) : Type 0 where
  pub chain : Chain h head xs head
  pub distinct : AllDistinct xs
  pub apart : has head xs ≡ false

-- A chain survives a change that spares its links.
pub Chain-frame :
    (h g : Links) (p : ℕ) (xs : List ℕ) (q : ℕ)
    → Chain h p xs q
    → ((a : ℕ) → has a (p ∷ xs) ≡ true → g.next a ≡ h.next a)
    → ((a : ℕ) → has a (q ∷ xs) ≡ true → g.prev a ≡ h.prev a)
    → Chain g p xs q
Chain-frame h g p [] q c n r = (ground (arith, n p), ground (arith, r q))
Chain-frame h g p (x ∷ xs) q c n r = (
  ground (arith, n p),
  ground (arith, r x),
  Chain-frame h g x xs q c.2 (λ a m. n a (ground arith)) (λ a m. r a (ground arith)),
)

pub has-prev :
    (h : Links) (p : ℕ) (xs : List ℕ) (q : ℕ) → Chain h p xs q → has (h.prev q) (p ∷ xs) ≡ true
has-prev h p [] q c = ground arith
has-prev h p (x ∷ xs) q c = ground (arith, has-prev h x xs q c.2)

pub has-next :
    (h : Links) (p : ℕ) (xs : List ℕ) (q : ℕ) → Chain h p xs q → has (h.next p) (q ∷ xs) ≡ true
has-next h p [] q c = ground arith
has-next h p (x ∷ xs) q c = ground arith

-- The last link of a chain is led elsewhere.
pub Chain-retarget :
    (h g : Links) (p : ℕ) (xs : List ℕ) (q t : ℕ)
    → Chain h p xs q
    → AllDistinct (p ∷ xs)
    → ((a : ℕ) → has a (p ∷ xs) ≡ true → a ≢ h.prev q → g.next a ≡ h.next a)
    → g.next (h.prev q) ≡ t
    → ((a : ℕ) → has a xs ≡ true → g.prev a ≡ h.prev a)
    → g.prev t ≡ h.prev q
    → Chain g p xs t
Chain-retarget h g p [] q t c d n e r f = (ground arith, ground arith)
Chain-retarget h g p (x ∷ xs) q t c d n e r f = (
  ground (arith, n p, has-prev h x xs q c.2),
  ground (arith, r x),
  Chain-retarget h g x xs q t c.2 d.1 (λ a m. n a (ground arith)) e (λ a m. r a (ground arith)) f,
)

-- The first link of a chain starts elsewhere.
pub Chain-resource :
    (h g : Links) (p : ℕ) (xs : List ℕ) (q s : ℕ)
    → Chain h p xs q
    → AllDistinct xs
    → has q xs ≡ false
    → ((a : ℕ) → has a xs ≡ true → g.next a ≡ h.next a)
    → g.next s ≡ h.next p
    → ((a : ℕ) → has a (q ∷ xs) ≡ true → a ≢ h.next p → g.prev a ≡ h.prev a)
    → g.prev (h.next p) ≡ s
    → Chain g s xs q
Chain-resource h g p [] q s c d o n e r f = (ground arith, ground arith)
Chain-resource h g p (x ∷ xs) q s c d o n e r f = (
  ground arith,
  ground arith,
  Chain-frame h g x xs q c.2 n (λ a m. r a (ground arith) (ground arith)),
)

pub Chain-snoc :
    (h : Links) (p : ℕ) (xs : List ℕ) (y q : ℕ)
    → Chain h p xs y
    → h.next y ≡ q
    → h.prev q ≡ y
    → Chain h p (xs ++ y ∷ []) q
Chain-snoc h p [] y q c e f = (c.0, c.1, (e, f))
Chain-snoc h p (x ∷ xs) y q c e f = (c.0, c.1, Chain-snoc h x xs y q c.2 e f)

pub Chain-append :
    (h : Links) (p : ℕ) (xs : List ℕ) (y : ℕ) (ys : List ℕ) (q : ℕ)
    → Chain h p xs y
    → Chain h y ys q
    → Chain h p (xs ++ y ∷ ys) q
Chain-append h p [] y ys q c d = (c.0, c.1, d)
Chain-append h p (x ∷ xs) y ys q c d = (c.0, c.1, Chain-append h x xs y ys q c.2 d)

pub Chain-split :
    (h : Links) (p : ℕ) (xs : List ℕ) (y : ℕ) (ys : List ℕ) (q : ℕ)
    → Chain h p (xs ++ y ∷ ys) q
    → Chain h p xs y × Chain h y ys q
Chain-split h p [] y ys q c = ((c.0, c.1), c.2)
Chain-split h p (x ∷ xs) y ys q c = let (a, b) = Chain-split h x xs y ys q c.2 in ((c.0, c.1, a), b)
