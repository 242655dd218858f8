-- ===== src/Registry/Balance.antt =====
-- Registrations and their ends keep every tracer's account even.
use mathlib.Core.List.{append-nil}
use libside.Common.{
  ℕ, ◌<◌, ◌≡◌, refl, Bool, true, false, Option, none, some, List, [], ◌∷◌, ◌++◌, map, arith, ◌==◌,
  if◌then◌else◌, Outcome, ok, ◌>>=◌, inl, inr, ◌⊎◌, >>=-ok, sym,
}
use libside.Registry.{
  EventsHandle, TracerHandle, insert_events, remove_events, Notice, notice, Side, World, side_init,
  enter, add_events, add_tracer, events_handle, tracer_handle, events_register, events_unregister,
  tracer_register, tracer_unregister, remove_events_node, remove_tracer_node, remove_all_callbacks,
}
use libside.Rcu.{gp_init}
use libside.Registry.Ledger.{
  tracers_at, events_at, Balanced, inserted-append, removed-append, tracers_at-append,
  events_at-append, events_at-one, tracers_at-one, told_all, told_of, events_at-remove,
  tracers_at-remove, mul-grow,
}

-- What initialization leaves alone.
pub record Keeps (s t : Side) : Type 0 where
  pub finalized : t.finalized ≡ s.finalized
  pub states : t.states ≡ s.states
  pub events_list : t.events_list ≡ s.events_list
  pub tracer_list : t.tracer_list ≡ s.tracer_list

pub side_init-Keeps :
    (w : World) (s : Side) {t : Side} → side_init w s ≡ ok t → Keeps s t × (t.initialized ≡ true)
unfolding side_init gp_init
side_init-Keeps w s h = ground arith

either {ℓ} :
    {A : Type ℓ} (b : Bool) (over : A) (m : Outcome A) {r : A}
    → (if b then ok over else m) ≡ ok r
    → (r ≡ over) ⊎ ((b ≡ false) × (m ≡ ok r))
either true over m h = inl (cc)
either false over m h = inr (refl, h)

-- The two ways through the prologue.
pub enter-ok {ℓ} :
    {A : Type ℓ} (w : World) (s : Side) (over : A) (body : Side → Outcome A) {r : A}
    → enter w s over body ≡ ok r
    → (r ≡ over) ⊎ ((t : Side) × Keeps s t × (body t ≡ ok r))
unfolding enter
enter-ok w s over body h = elim (either s.finalized over (side_init w s >>= body) h) [
  | inl done ↦ inl done
  | inr (_, going) ↦
      let (t, started, rest) = >>=-ok (side_init w s) body going in
      inr (t, (side_init-Keeps w s started).0, rest)
]

-- What a successful call leaves: nothing new, or one change and the notices of it.
pub data Registered (s s' : Side) (told : List Notice) : Type 0 where
  unchanged :
      s'.events_list ≡ s.events_list
      → s'.tracer_list ≡ s.tracer_list
      → told ≡ []
      → Registered s s' told
  added_events :
      (h : EventsHandle)
      → s'.events_list ≡ s.events_list ++ h ∷ []
      → s'.tracer_list ≡ s.tracer_list
      → told ≡ map (notice insert_events h) s.tracer_list
      → Registered s s' told
  removed_handle :
      (h : EventsHandle)
      → 0 < events_at h.node s.events_list
      → s'.events_list ≡ remove_events_node h.node s.events_list
      → s'.tracer_list ≡ s.tracer_list
      → told ≡ map (notice remove_events h) s.tracer_list
      → Registered s s' told
  added_tracer :
      (t : TracerHandle)
      → s'.events_list ≡ s.events_list
      → s'.tracer_list ≡ s.tracer_list ++ t ∷ []
      → told ≡ map (λ h. notice insert_events h t) s.events_list
      → Registered s s' told
  removed_tracer :
      (t : TracerHandle)
      → 0 < tracers_at t.node s.tracer_list
      → s'.events_list ≡ s.events_list
      → s'.tracer_list ≡ remove_tracer_node t.node s.tracer_list
      → told ≡ map (λ h. notice remove_events h t) s.events_list
      → Registered s s' told

pub events_register-Registered :
    (w : World) (node : Option ℕ) (events : List (Option ℕ)) (s : Side) {s' : Side}
    {r : Option EventsHandle} {told : List Notice}
    → events_register w node events s ≡ ok (s', r, told)
    → Registered s s' told
unfolding events_register
events_register-Registered w node events s {s'} {r} {told} e =
    elim (enter-ok w s _ (add_events node events) e) [
      | inl over ↦ unchanged (cc) (cc) (cc)
      | inr (t, k, rest) ↦ added node rest k
    ]
  where
    added :
        {t : Side} (node : Option ℕ)
        → add_events node events t ≡ ok (s', r, told)
        → Keeps s t
        → Registered s s' told
    added none rest k = unchanged (ground arith) (ground arith) (ground arith)
    added (some n) rest k =
        added_events (events_handle n events) (ground arith) (ground arith) (ground arith)

pub tracer_register-Registered :
    (w : World) (node : Option ℕ) (cb priv : ℕ) (s : Side) {s' : Side} {r : Option TracerHandle}
    {told : List Notice}
    → tracer_register w node cb priv s ≡ ok (s', r, told)
    → Registered s s' told
unfolding tracer_register
tracer_register-Registered w node cb priv s {s'} {r} {told} e =
    elim (enter-ok w s _ (add_tracer node cb priv) e) [
      | inl over ↦ unchanged (cc) (cc) (cc)
      | inr (t, k, rest) ↦ added node rest k
    ]
  where
    added :
        {t : Side} (node : Option ℕ)
        → add_tracer node cb priv t ≡ ok (s', r, told)
        → Keeps s t
        → Registered s s' told
    added none rest k = unchanged (ground arith) (ground arith) (ground arith)
    added (some n) rest k =
        added_tracer (tracer_handle n cb priv) (ground arith) (ground arith) (ground arith)

pub events_unregister-Registered :
    (w : World) (h : EventsHandle) (s : Side) {s' : Side} {told : List Notice}
    → 0 < events_at h.node s.events_list
    → events_unregister w (some h) s ≡ ok (s', told)
    → Registered s s' told
unfolding events_unregister
events_unregister-Registered w h s {s'} {told} there e = elim (enter-ok w s _ _ e) [
  | inl over ↦ unchanged (cc) (cc) (cc)
  | inr (t, k, rest) ↦
      let (states, _, left) = >>=-ok (remove_all_callbacks h.events t.states) _ rest in
      removed_handle h there (ground arith) (ground arith) (ground arith)
]

pub tracer_unregister-Registered :
    (w : World) (x : TracerHandle) (s : Side) {s' : Side} {told : List Notice}
    → 0 < tracers_at x.node s.tracer_list
    → tracer_unregister w x s ≡ ok (s', told)
    → Registered s s' told
unfolding tracer_unregister
tracer_unregister-Registered w x s {s'} {told} there e = elim (enter-ok w s _ _ e) [
  | inl over ↦ unchanged (cc) (cc) (cc)
  | inr (t, k, rest) ↦ removed_tracer x there (ground arith) (ground arith) (ground arith)
]

pub Registered-Balanced :
    {s s' : Side} {told : List Notice} (log : List Notice)
    → Registered s s' told
    → Balanced log s
    → Balanced (log ++ told) s'
Registered-Balanced {s} {s'} log (unchanged e f n) b t h = rw (e, f, n, append-nil) (b t h)
Registered-Balanced {s} {s'} log (added_events x e f n) b t h =
    let told = told_all insert_events x s.tracer_list t h in
    rw (e, f, n)
      (ground (
        arith,
        b t h,
        inserted-append t h log (map (notice insert_events x) s.tracer_list),
        removed-append t h log (map (notice insert_events x) s.tracer_list),
        told.ins,
        told.rem,
        (mul-grow (tracers_at t s.tracer_list) (events_at h s.events_list)
            (events_at h (s.events_list ++ x ∷ [])) (x.node == h)
            (omega (arith, events_at-append h s.events_list (x ∷ []), events_at-one h x))).0,
      ))
Registered-Balanced {s} {s'} log (removed_handle x there e f n) b t h =
    let told = told_all remove_events x s.tracer_list t h in
    rw (e, f, n)
      (ground (
        arith,
        b t h,
        inserted-append t h log (map (notice remove_events x) s.tracer_list),
        removed-append t h log (map (notice remove_events x) s.tracer_list),
        told.ins,
        told.rem,
        (mul-grow (tracers_at t s.tracer_list)
            (events_at h (remove_events_node x.node s.events_list)) (events_at h s.events_list)
            (x.node == h) (sym (events_at-remove x.node h s.events_list there))).0,
      ))
Registered-Balanced {s} {s'} log (added_tracer x e f n) b t h =
    let told = told_of insert_events x s.events_list t h in
    rw (e, f, n)
      (ground (
        arith,
        b t h,
        inserted-append t h log (map (λ g. notice insert_events g x) s.events_list),
        removed-append t h log (map (λ g. notice insert_events g x) s.events_list),
        told.ins,
        told.rem,
        (mul-grow (events_at h s.events_list) (tracers_at t s.tracer_list)
            (tracers_at t (s.tracer_list ++ x ∷ [])) (x.node == t)
            (omega (arith, tracers_at-append t s.tracer_list (x ∷ []), tracers_at-one t x))).1,
      ))
Registered-Balanced {s} {s'} log (removed_tracer x there e f n) b t h =
    let told = told_of remove_events x s.events_list t h in
    rw (e, f, n)
      (ground (
        arith,
        b t h,
        inserted-append t h log (map (λ g. notice remove_events g x) s.events_list),
        removed-append t h log (map (λ g. notice remove_events g x) s.events_list),
        told.ins,
        told.rem,
        (mul-grow (events_at h s.events_list)
            (tracers_at t (remove_tracer_node x.node s.tracer_list)) (tracers_at t s.tracer_list)
            (x.node == t) (sym (tracers_at-remove x.node t s.tracer_list there))).1,
      ))
