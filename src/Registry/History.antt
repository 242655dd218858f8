-- ===== src/Registry/History.antt =====
-- Any sequence of registrations and their ends, from a state with no handle.
use libside.Common.{ℕ, ◌+◌, ◌*◌, ◌<◌, ◌≡◌, Option, some, List, [], ◌++◌, arith, ok}
use libside.Registry.{
  EventsHandle, TracerHandle, Notice, Side, World, events_register, events_unregister,
  tracer_register, tracer_unregister,
}
use libside.Registry.Ledger.{inserted, removed, tracers_at, events_at}
use libside.Registry.Balance.{
  events_register-Registered, tracer_register-Registered, events_unregister-Registered,
  tracer_unregister-Registered, Registered-Balanced,
}

-- The states that calls lead to, with all the notices given so far. A handle is given back only
-- while it is registered.
pub data Calls (w : World) : Side → List Notice → Type 0 where
  fresh : {s : Side} → s.events_list ≡ [] → s.tracer_list ≡ [] → Calls w s []
  register_events :
      {s s' : Side} {log told : List Notice} {r : Option EventsHandle}
      → Calls w s log
      → (node : Option ℕ) (events : List (Option ℕ))
      → events_register w node events s ≡ ok (s', r, told)
      → Calls w s' (log ++ told)
  unregister_events :
      {s s' : Side} {log told : List Notice}
      → Calls w s log
      → (h : EventsHandle) → 0 < events_at h.node s.events_list
      → events_unregister w (some h) s ≡ ok (s', told)
      → Calls w s' (log ++ told)
  register_tracer :
      {s s' : Side} {log told : List Notice} {r : Option TracerHandle}
      → Calls w s log
      → (node : Option ℕ) (cb priv : ℕ) → tracer_register w node cb priv s ≡ ok (s', r, told)
      → Calls w s' (log ++ told)
  unregister_tracer :
      {s s' : Side} {log told : List Notice}
      → Calls w s log
      → (t : TracerHandle) → 0 < tracers_at t.node s.tracer_list
      → tracer_unregister w t s ≡ ok (s', told)
      → Calls w s' (log ++ told)

-- Whatever was registered and given back, and in whatever order: a tracer at address `t` has been
-- told of the insertion of a handle at `h` as often as of its removal, plus once for each way in
-- which both are registered now.
pub notices_balanced :
    {w : World} {s : Side} {log : List Notice}
    → Calls w s log
    → (t h : ℕ)
    → inserted t h log ≡ removed t h log + tracers_at t s.tracer_list * events_at h s.events_list
notices_balanced (fresh {s} no_events no_tracers) t h =
    rw (no_events, no_tracers) (unfold inserted removed tracers_at events_at in omega arith)
notices_balanced (register_events {log} c node events e) t h =
    Registered-Balanced log (events_register-Registered _ node events _ e) (notices_balanced c) t h
notices_balanced (unregister_events {log} c x there e) t h =
    Registered-Balanced log (events_unregister-Registered _ x _ there e) (notices_balanced c) t h
notices_balanced (register_tracer {log} c node cb priv e) t h =
    Registered-Balanced log (tracer_register-Registered _ node cb priv _ e) (notices_balanced c) t h
notices_balanced (unregister_tracer {log} c x there e) t h =
    Registered-Balanced log (tracer_unregister-Registered _ x _ there e) (notices_balanced c) t h
