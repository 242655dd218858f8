-- ===== src/Ring/Splice.antt =====
-- `side_list_splice` of src/list.h, on two rings that share no node.
use libside.Common.{ℕ, ◌≡◌, ◌≢◌, true, false, List, [], ◌∷◌, ◌++◌, ◌==◌, if◌then◌else◌, arith}
use mathlib.Core.List.{append-nil}
use libside.Ring.{Links, is_empty, splice}
use libside.Ring.Laws.{is_empty-is_nil}
use libside.Ring.Chain.{
  has, Chain, AllDistinct, IsRing, Chain-frame, has-prev, has-next, Chain-retarget, Chain-append,
}
use libside.Ring.Distinct.{has-append, AllDistinct-append}

module _ (h : Links) (from to x : ℕ) (xs : List ℕ) (here : IsRing h from (x ∷ xs))
    (differ : from ≢ to) (out : has to (x ∷ xs) ≡ false) where
  open here use {chain, distinct, apart}

  -- The last node of the ring that is moved.
  abbrev last : ℕ
  last = h.prev from

  last-has : has last (x ∷ xs) ≡ true
  last-has = has-prev h x xs from chain.2

  next-splice :
      (a : ℕ)
      → (splice from to h).next a
        ≡ (if a == to then x else if a == last then h.next to else h.next a)
  unfolding splice is_empty
  next-splice a = ground (arith, last-has)

  prev-splice :
      (a : ℕ)
      → (splice from to h).prev a
        ≡ (if a == h.next to then last else if a == x then to else h.prev a)
  unfolding splice is_empty
  prev-splice a = ground (arith, last-has)

  moved : (t : ℕ) → h.next to ≡ t → has t (x ∷ xs) ≡ false → Chain (splice from to h) x xs t
  moved t e o =
      Chain-retarget h (splice from to h) x xs from t chain.2 distinct
        (λ a m ne. ground (arith, next-splice a)) (ground (arith, next-splice last, last-has))
        (λ a m. ground (arith, prev-splice a)) (ground (arith, prev-splice t))

  splice-Chain :
      (ys : List ℕ)
      → Chain h to ys to
      → AllDistinct ys
      → has to ys ≡ false
      → ((a : ℕ) → has a (x ∷ xs) ≡ true → has a ys ≡ false)
      → Chain (splice from to h) x (xs ++ ys) to
  splice-Chain [] c d o disjoint = rw append-nil (moved to c.0 out)
  splice-Chain (y ∷ ys) c d o disjoint =
      Chain-append (splice from to h) x xs y ys to (moved y c.0 (ground (arith, disjoint y))) (
        Chain-frame h (splice from to h) y ys to c.2
          (λ a m. ground (arith, next-splice a, last-has, disjoint last))
          (λ a m. ground (arith, prev-splice a, disjoint x)))

  pub splice-IsRing_cons :
      (ys : List ℕ)
      → IsRing h to ys
      → ((a : ℕ) → has a (x ∷ xs) ≡ true → has a ys ≡ false)
      → IsRing (splice from to h) to (x ∷ xs ++ ys)
  splice-IsRing_cons ys there disjoint = record {
    chain = (
      ground (arith, next-splice to),
      ground (arith, prev-splice x, disjoint x, has-next h to ys to there.chain),
      splice-Chain ys there.chain there.distinct there.apart disjoint,
    );
    distinct = AllDistinct-append (x ∷ xs) ys distinct there.distinct disjoint;
    apart = ground (arith, there.apart, has-append to xs ys);
  }

-- If two rings have different heads, and the first has neither the head of the second nor a node in
-- common with it, then the second has, after the splice, the nodes of the first before its own.
pub splice-IsRing :
    (h : Links) (from to : ℕ) (xs ys : List ℕ)
    → IsRing h from xs
    → IsRing h to ys
    → from ≢ to
    → has to xs ≡ false
    → ((a : ℕ) → has a xs ≡ true → has a ys ≡ false)
    → IsRing (splice from to h) to (xs ++ ys)
unfolding splice
splice-IsRing h from to [] ys here there differ out disjoint =
    rw (is_empty-is_nil h from [] here) there
splice-IsRing h from to (x ∷ xs) ys here there differ out disjoint =
    splice-IsRing_cons h from to x xs here differ out ys there disjoint
