-- ===== src/Callback/Bytes.antt =====
-- Memory blocks as C sees them: bytes, little-endian words in them, calloc(), memcpy() and free().
use libside.Common.{
  ℕ, zero, suc, ◌+◌, ◌-◌, ◌*◌, ◌/◌, ◌%◌, Bool, false, ◌&&◌, ltb, leb, if◌then◌else◌, update,
  Outcome, ok, fault,
}

-- A block of `size` bytes; `static` when it was not got from calloc().
pub record Block : Type 0 where
  pub static : Bool
  pub size : ℕ
  pub byte : ℕ → ℕ

-- The word of `n` bytes at offset `o`, lowest byte first.
unfoldable pub word : ℕ → (ℕ → ℕ) → ℕ → ℕ
word zero m o = 0
word (suc n) m o = m o + 256 * word n m (o + 1)

unfoldable pub store : ℕ → (ℕ → ℕ) → ℕ → ℕ → ℕ → ℕ
store zero m o v = m
store (suc n) m o v = update (store n m (o + 1) (v / 256)) o (v % 256)

unfoldable pub calloc : (nmemb size : ℕ) → Block
calloc nmemb size = record { static = false; size = nmemb * size; byte = λ _. 0 }

-- Copies `n` bytes, and faults where it would leave either block.
unfoldable pub memcpy : (dst : Block) (at : ℕ) (src : Block) (from n : ℕ) → Outcome Block
memcpy dst at src from n =
    if leb (at + n) dst.size && leb (from + n) src.size
    then ok (record dst {
      byte = λ i. if leb at i && ltb i (at + n) then src.byte (from + (i - at)) else dst.byte i;
    })
    else fault

-- Only what calloc() returned may be freed.
unfoldable pub free : Block → Outcome (Unit {0})
free b = if b.static then fault else ok tt
