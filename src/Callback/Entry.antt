-- ===== src/Callback/Entry.antt =====
-- Entries of a callback array: what an assignment leaves, what it spares, and where NULL stands.
use native.Mathlib.Decide.{dec_lt}
use libside.Common.{ℕ, ◌+◌, ◌*◌, ◌^◌, ◌≤◌, ◌<◌, ◌≡◌, ◌≢◌, ◌∙◌, ◌⊎◌, inl, inr, arith, ok}
use libside.Callback.{SideCallback, entry, put_entry}
use libside.Callback.Bytes.{Block, word, store}
use libside.Callback.Words.{word-zero, word-store, word-store_other}

pub record Fits (cb : SideCallback) : Type 0 where
  pub call : cb.call < 256 ^ 8
  pub priv : cb.priv < 256 ^ 8
  pub key : cb.key < 256 ^ 8

-- The block that an assignment within bounds leaves.
abbrev pub with_entry : Block → ℕ → SideCallback → Block
with_entry b i cb = record b {
  byte =
      store 8 (store 8 (store 8 b.byte (24 * i) cb.call) (24 * i + 8) cb.priv) (24 * i + 16) cb.key;
}

pub put_entry-ok :
    (b : Block) (i : ℕ) (cb : SideCallback)
    → 24 * i + 24 ≤ b.size
    → put_entry b i cb ≡ ok (with_entry b i cb)
unfolding put_entry
put_entry-ok b i cb h = ground arith

pub callback_eq : {a b : SideCallback} → a.call ≡ b.call → a.priv ≡ b.priv → a.key ≡ b.key → a ≡ b
callback_eq p q r = λ i. record { call = p i; priv = q i; key = r i }

pub entry-with_self :
    (b : Block) (i : ℕ) (cb : SideCallback) → Fits cb → entry (with_entry b i cb) i ≡ cb
unfolding entry
entry-with_self b i cb f =
    let m1 = store 8 b.byte (24 * i) cb.call in
    let m2 = store 8 m1 (24 * i + 8) cb.priv in
    callback_eq
      (word-store_other 8 8 m2 (24 * i + 16) cb.key (24 * i) (inl (omega arith))
        ∙ word-store_other 8 8 m1 (24 * i + 8) cb.priv (24 * i) (inl (omega arith))
        ∙ word-store 8 b.byte (24 * i) cb.call f.call)
      (word-store_other 8 8 m2 (24 * i + 16) cb.key (24 * i + 8) (inl (omega arith))
        ∙ word-store 8 m1 (24 * i + 8) cb.priv f.priv)
      (word-store 8 m2 (24 * i + 16) cb.key f.key)

word-with_other :
    (b : Block) (i : ℕ) (cb : SideCallback) (a : ℕ)
    → (a + 8 ≤ 24 * i) ⊎ (24 * i + 24 ≤ a)
    → word 8 (with_entry b i cb).byte a ≡ word 8 b.byte a
word-with_other b i cb a apart =
    let m1 = store 8 b.byte (24 * i) cb.call in
    let m2 = store 8 m1 (24 * i + 8) cb.priv in
    word-store_other 8 8 m2 (24 * i + 16) cb.key a (omega arith)
    ∙ word-store_other 8 8 m1 (24 * i + 8) cb.priv a (omega arith)
    ∙ word-store_other 8 8 b.byte (24 * i) cb.call a (omega arith)

pub entry-with_other :
    (b : Block) (i j : ℕ) (cb : SideCallback) → i ≢ j → entry (with_entry b i cb) j ≡ entry b j
unfolding entry
entry-with_other b i j cb ne =
    callback_eq
      (word-with_other b i cb (24 * j)
        (elim (dec_lt j i) [ yes below ↦ inl (omega arith) | no above ↦ inr (omega arith) ]))
      (word-with_other b i cb (24 * j + 8) (apart 8 (omega arith)))
      (word-with_other b i cb (24 * j + 16) (apart 16 (omega arith)))
  where
    apart : (k : ℕ) → k ≤ 16 → (24 * j + k + 8 ≤ 24 * i) ⊎ (24 * i + 24 ≤ 24 * j + k)
    apart k small = elim (dec_lt j i) [
      | yes below ↦ inl (omega arith)
      | no above ↦ inr (omega arith)
    ]

-- Entries that are NULL all over read as NULL.
pub entry-call_zero :
    (b : Block) (i : ℕ)
    → ((k : ℕ) → 24 * i ≤ k → k < 24 * i + 8 → b.byte k ≡ 0)
    → (entry b i).call ≡ 0
unfolding entry
entry-call_zero b i clear = word-zero 8 b.byte (24 * i) clear
