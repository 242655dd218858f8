-- ===== src/Visit/Gather/Reads.antt =====
-- The memory of the application as the gather functions of src/visit-arg-vec.c read it, on a 64-bit
-- little-endian machine. It can be read below `limit`, but for the address NULL.
use libside.Common.{
  ℕ, zero, suc, ◌+◌, Bool, ◌&&◌, ◌||◌, leb, ltb, ◌==◌, if◌then◌else◌, Outcome, ok, aborted, fault,
  ◌>>=◌,
}
use libside.Callback.Bytes.{word}
use libside.Visit.Integers.{TypeInteger, IntValue, load_integer_value}
use libside.Visit.Types.{Access, direct, pointer_to, unknown_access}

pub record Memory : Type 0 where
  pub limit : ℕ
  pub byte : ℕ → ℕ

abbrev pub readable : Memory → (p n : ℕ) → Bool
readable m p n = ltb 0 p && leb (p + n) m.limit

-- The word of `n` bytes at `p`.
unfoldable pub read : Memory → (p n : ℕ) → Outcome ℕ
read m p n = if readable m p n then ok (word n m.byte p) else fault

abbrev pub tracer_gather_access : Memory → Access → ℕ → Outcome ℕ
tracer_gather_access m direct p = ok p
tracer_gather_access m pointer_to p = read m p 8
tracer_gather_access m unknown_access p = aborted

abbrev pub tracer_gather_size : Access → ℕ → Outcome ℕ
tracer_gather_size direct len = ok len
tracer_gather_size pointer_to len = ok 8
tracer_gather_size unknown_access len = aborted

-- The loops of `type_visitor_strlen`, over units of `unit` bytes, `n` units at most: the size of the
-- string with its terminator.
unfoldable pub units_from : ℕ → Memory → (unit p : ℕ) → Outcome ℕ
units_from zero m unit p = fault
units_from (suc n) m unit p =
    let rest = units_from n m unit (p + unit) in
    do c ← read m p unit; if c == 0 then ok unit else (rest >>= λ len. ok (unit + len))

-- More units than `limit` are not in memory.
unfoldable pub type_visitor_strlen : Memory → (p unit_size : ℕ) → Outcome ℕ
unfolding units_from
type_visitor_strlen m p unit_size =
    if (unit_size == 1) || (unit_size == 2) || (unit_size == 4)
    then units_from (suc m.limit) m unit_size p
    else aborted

-- `tracer_load_gather_integer_value`; the union that the bytes are copied to has 32.
unfoldable pub load_gather_integer_value :
    Memory → Access → (offset : ℕ) → TypeInteger → (offset_bits p : ℕ) → Outcome IntValue
load_gather_integer_value m a offset i offset_bits p = do
  q ← tracer_gather_access m a (p + offset)
  if leb i.integer_size 32 && readable m q i.integer_size
      then load_integer_value i (λ k. m.byte (q + k)) offset_bits
      else fault
