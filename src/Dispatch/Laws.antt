-- ===== src/Dispatch/Laws.antt =====
-- Which tracers a call of an event reaches.
use libside.Common.{
  ℕ, zero, suc, ◌/◌, ◌≡◌, refl, Bool, true, false, not, ◌&&◌, ◌||◌, ◌%◌, ◌^◌, List, [], ◌∷◌, ◌++◌,
  map, keep, arith, ◌↔◌, ◌⊎◌, ◌==◌, if◌then◌else◌, Bool-cases, inl, inr, Outcome, ok, aborted,
}
use libside.Callback.{SideCallback, EventState, entry}
use libside.Callback.Bytes.{Block}
use libside.Callback.Live.{live_from, prepend-ok}
use libside.Callback.Invariant.{IsValid, live}
use libside.Dispatch.{
  Invocation, invoke, accepts, call_from, shared_calls, event_call, shared_bits, ptrace_bit,
  ptrace_hook,
}

-- A key selects a callback when one of the two keys is 0, which matches all, or they are equal.
abbrev pub fits_key : ℕ → SideCallback → Bool
fits_key key cb = (key == 0) || (cb.key == 0) || (cb.key == key)

-- The debugger's breakpoint, which bit 62 of `enabled` asks for, with the keys 0 and 2.
abbrev pub breakpoint : (enabled key : ℕ) → List Invocation
breakpoint enabled key =
    if (enabled / 2 ^ 62 % 2 == 1) && ((key == 0) || (key == 2)) then ptrace_hook ∷ [] else []

pub accepts-fits_key : (key : ℕ) (cb : SideCallback) → accepts key cb.key ≡ fits_key key cb
accepts-fits_key key cb = ground arith

pub shared_calls-breakpoint : (enabled key : ℕ) → shared_calls enabled key ≡ breakpoint enabled key
unfolding shared_calls
shared_calls-breakpoint enabled key =
    let bit : shared_bits enabled && ptrace_bit enabled ≡ (enabled / 2 ^ 62 % 2 == 1) =
      ground arith in
    ground (arith, bit)

abbrev pub invocation : SideCallback → Invocation
invocation cb = invoke cb.call cb.priv

call_from-live :
    (n : ℕ) (b : Block) (i key : ℕ) {xs : List SideCallback}
    → live_from n b i ≡ ok xs
    → call_from n b i key ≡ ok (map invocation (keep (fits_key key) xs))
unfolding live_from call_from
call_from-live zero b i key h = cc
call_from-live (suc n) b i key {xs} h = elim (Bool-cases ((entry b i).call == 0)) [
  | inl end ↦ let e : Outcome.ok [] ≡ ok xs = rw end at h in let nil : xs ≡ [] = cc in rw (end, nil)
  | inr more ↦
      let (ys, found, e) = prepend-ok (entry b i) (live_from n b (suc i)) (rw more at h) in
      let rest : call_from n b (suc i) key ≡ ok (map invocation (keep (fits_key key) ys)) =
        call_from-live n b (suc i) key found in
      let same = accepts-fits_key key (entry b i) in
      elim (Bool-cases (fits_key key (entry b i))) [
        | inl fit ↦ rw (more, rest, e, same, fit)
        | inr other ↦ rw (more, rest, e, same, other)
      ]
]

own_kind : (b : Bool) → (if b then not b else b) ≡ false
own_kind true = refl
own_kind false = refl

-- A call of a valid event by the function of its kind reaches first the debugger's breakpoint, exactly
-- if bit 62 of `enabled` is set and the key is 0 or 2, and then, each once and in the order of the
-- array, the reachable callbacks whose key is 0 or the key of the call, or all of them if that is 0.
pub event_call-live :
    {s : EventState} (key : ℕ) {xs : List SideCallback}
    → IsValid s
    → live s ≡ ok xs
    → event_call s.variadic s key
      ≡ ok (breakpoint s.enabled key ++ map invocation (keep (fits_key key) xs))
unfolding event_call live
event_call-live {s} key v e =
    let checked : not (s.version == 0) ≡ false = ground (arith, v.version) in
    rw (
      checked,
      own_kind s.variadic,
      shared_calls-breakpoint s.enabled key,
      call_from-live (s.callbacks.size / 24) s.callbacks 0 key e,
    )

-- A key lets a callback through exactly when one of the two keys matches all, or they are equal.
pub accepts_iff :
    (key cb_key : ℕ) → (accepts key cb_key ≡ true) ↔ ((key ≡ 0) ⊎ (cb_key ≡ 0) ⊎ (cb_key ≡ key))
accepts_iff key cb_key = ground arith

-- A call of an event by the function of the other kind aborts, whatever is registered.
pub event_call-aborted : (s : EventState) (key : ℕ) → event_call (not s.variadic) s key ≡ aborted
unfolding event_call
event_call-aborted s key = ground arith
