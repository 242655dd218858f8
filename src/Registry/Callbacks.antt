-- ===== src/Registry/Callbacks.antt =====
-- The entry points for tracer callbacks of src/side.c, on a library that is live.
use libside.Common.{ℕ, ◌≡◌, Bool, false, ◌≢◌, ◌-◌, List, ◌++◌, map, keep, ok, ◌∙◌}
use libside.Callback.{SideCallback, uint32_max}
use libside.Callback.Invariant.{live}
use libside.Callback.Live.{position}
use libside.Callback.Register.{callback_register_lem, register_answer, register_result}
use libside.Dispatch.Laws.{breakpoint, fits_key, invocation, event_call-live}
use libside.Registry.{Side, World, bad_callback, set_state, tracer_callback_register, side_call}
use libside.Registry.Exit.{Live, enter-live}

module _ (w : World) (s : Side) (l : Live s) (desc : ℕ) {xs : List SideCallback}
    (e : live (s.states desc) ≡ ok xs) where
  -- On a library that is initialized, not ended and has valid event states, a call of an event by the
  -- function of its kind leaves the state alone, and reaches the debugger's breakpoint, exactly if bit 62
  -- of `enabled` is set and the key is 0 or 2, and then, in order, the reachable callbacks whose key is 0
  -- or the key of the call, or all of them if that is 0.
  pub side_call-live :
      (key : ℕ)
      → side_call w (s.states desc).variadic desc key s
        ≡ ok (s, breakpoint (s.states desc).enabled key ++ map invocation (keep (fits_key key) xs))
  unfolding side_call
  side_call-live key =
      enter-live w s _ _ l.started l.going ∙ rw (event_call-live key (l.valid desc) e)

  -- On a library that is initialized, not ended and has valid event states, the registration of a
  -- callback of the event's kind, not NULL, changes the state of this event alone, to the state of the
  -- array's registration, whose answer it returns.
  tracer_callback_register-live :
      (calloc_ok variadic : Bool) (cb : SideCallback)
      → (s.states desc).nr_callbacks ≢ uint32_max - 1
      → bad_callback s variadic desc cb ≡ false
      → let r =
          register_result
            (s.states desc)
            cb
            (register_answer calloc_ok (s.states desc).nr_callbacks (position 0 xs cb)) in
        tracer_callback_register w calloc_ok variadic desc cb s
        ≡ ok (set_state s desc r.state, r.error)
  unfolding tracer_callback_register
  tracer_callback_register-live calloc_ok variadic cb spare good = rw good (
      enter-live w s _ _ l.started l.going
      ∙ rw (callback_register_lem (l.valid desc) calloc_ok cb spare e))
