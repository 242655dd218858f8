-- ===== src/Registry/Delivery.antt =====
-- From the registration of a callback to a call of its event, through the entry points of src/side.c.
use libside.Common.{
  ℕ, ◌≡◌, ◌≢◌, refl, sym, Bool, true, false, [], ◌∷◌, ◌++◌, map, keep, ok, ◌∙◌, ==-refl, ap, arith,
}
use libside.Callback.{SideCallback, EventState, error_ok}
use libside.Callback.Entry.{Fits}
use libside.Callback.Invariant.{live}
use libside.Callback.Delivery.{first_register}
use libside.Dispatch.{shared_calls, accepts, invoke}
use libside.Dispatch.Laws.{
  breakpoint, fits_key, invocation, accepts-fits_key, shared_calls-breakpoint,
}
use libside.Registry.{Side, World, bad_callback, set_state, tracer_callback_register, side_call}
use libside.Registry.Exit.{Live, update-AllValid, enter-live}
use libside.Registry.Callbacks.{side_call-live}

bad_callback-usable :
    (s : Side) (variadic : Bool) (desc : ℕ) (cb : SideCallback)
    → bad_callback s variadic desc cb ≡ false
    → cb.call ≢ 0
bad_callback-usable s variadic desc cb good = ground arith

states-set_state : (s : Side) (desc : ℕ) (es : EventState) → (set_state s desc es).states desc ≡ es
states-set_state s desc es = rw (==-refl desc) refl

-- On a library that is initialized, not ended and has valid event states, a tracer that registers the
-- first callback of an event, of the event's kind and with words that fit, gets "ok" if calloc() does
-- not fail, the library stays as described, and a call of the event with a key that the callback
-- accepts reaches, besides the debugger's breakpoint, this callback with its private data and nothing
-- else.
pub first_delivery :
    (w : World) (s : Side) (desc : ℕ) (variadic : Bool) (cb : SideCallback) (key : ℕ)
    → Live s
    → Fits cb
    → bad_callback s variadic desc cb ≡ false
    → (s.states desc).nr_callbacks ≡ 0
    → accepts key cb.key ≡ true
    → (s' : Side) × (tracer_callback_register w true variadic desc cb s ≡ ok (s', error_ok))
      × Live s'
      × (side_call w (s'.states desc).variadic desc key s'
          ≡ ok (s', shared_calls (s'.states desc).enabled key ++ invoke cb.call cb.priv ∷ []))
unfolding tracer_callback_register
first_delivery w s desc variadic cb key l f good none_yet fits =
    let (u, e, accepted, valid, reach) =
      first_register (l.valid desc) cb f (bad_callback-usable s variadic desc cb good) none_yet in
    let s' = set_state s desc u.state in
    let l' : Live s' = record {
      started = l.started;
      going = l.going;
      valid = update-AllValid s.states desc u.state l.valid valid;
    } in
    let reach' : live (s'.states desc) ≡ ok (cb ∷ []) =
      ap live (states-set_state s desc u.state) ∙ reach in
    let kept : keep (fits_key key) (cb ∷ []) ≡ cb ∷ [] =
      rw (sym (accepts-fits_key key cb), fits) refl in
    (
      s',
      rw good (enter-live w s _ _ l.started l.going ∙ rw (e, accepted) refl),
      l',
      side_call-live w s' l' desc reach' key
          ∙ ap (λ xs. ok (s', breakpoint (s'.states desc).enabled key ++ map invocation xs)) kept
          ∙ ap (λ hooks. ok (s', hooks ++ invoke cb.call cb.priv ∷ []))
              (sym (shared_calls-breakpoint (s'.states desc).enabled key)),
    )
