-- ===== src/Dispatch.antt =====
-- src/side.c: what `_side_call` and `_side_call_variadic` do once the library is initialized: the
-- shared tracers that the top bits of `enabled` select, then the callbacks whose key fits. The
-- kernel's write for user events is still to be written in the source, so the bit has no effect. The
-- loop stands in a read-side section of RCU, whose guarantee is Rcu's; here the array stands still.
pub mod Laws
mod Examples
use libside.Common.{
  ℕ, zero, suc, ◌*◌, ◌/◌, ◌%◌, ◌^◌, Bool, true, false, ◌&&◌, ◌||◌, not, List, [], ◌∷◌, ◌++◌, ◌==◌,
  if◌then◌else◌, Outcome, ok, aborted, fault, ◌>>=◌,
}
use libside.Callback.{SideCallback, EventState, entry, key_match_all}
use libside.Callback.Bytes.{Block}

-- What a call of an event sets off: the breakpoint of a debugger, or a tracer's function with its
-- private data.
pub data Invocation : Type 0 where
  ptrace_hook : Invocation
  invoke : (call priv : ℕ) → Invocation

abbrev pub key_ptrace : ℕ
key_ptrace = 2

-- Whether the loop calls a callback with key `cb_key` for the key `key`.
abbrev pub accepts : (key cb_key : ℕ) → Bool
accepts key cb_key =
    not (not (key == key_match_all) && not (cb_key == key_match_all) && not (cb_key == key))

-- The loop over the callbacks with `n` entries left in the block from index `i`.
unfoldable pub call_from : ℕ → Block → ℕ → (key : ℕ) → Outcome (List Invocation)
call_from zero b i key = fault
call_from (suc n) b i key =
    let rest = call_from n b (suc i) key in
    if (entry b i).call == 0
    then ok []
    else (if accepts key (entry b i).key
        then rest >>= (λ xs. ok (invoke (entry b i).call (entry b i).priv ∷ xs))
        else rest)

-- SIDE_EVENT_ENABLED_SHARED_MASK (the top 8 bits) and SIDE_EVENT_ENABLED_SHARED_PTRACE_MASK (bit 62)
abbrev pub shared_bits : ℕ → Bool
shared_bits enabled = not (enabled / 2 ^ 56 % 2 ^ 8 == 0)

abbrev pub ptrace_bit : ℕ → Bool
ptrace_bit enabled = not (enabled / 2 ^ 62 % 2 == 0)

unfoldable pub shared_calls : (enabled key : ℕ) → List Invocation
shared_calls enabled key =
    if shared_bits enabled && ptrace_bit enabled && ((key == key_match_all) || (key == key_ptrace))
    then ptrace_hook ∷ []
    else []

-- `variadic` says which of the two functions is called; each asserts that the event is of its kind.
unfoldable pub event_call : (variadic : Bool) → EventState → (key : ℕ) → Outcome (List Invocation)
unfolding call_from shared_calls
event_call variadic s key =
    if not (s.version == 0)
    then aborted
    else (if (if variadic then not s.variadic else s.variadic) then aborted else do
      called ← call_from (s.callbacks.size / 24) s.callbacks 0 key
      ok (shared_calls s.enabled key ++ called))
