-- ===== src/Registry/Exit.antt =====
-- `side_events_unregister` and `side_exit` of src/side.c on valid states.
use libside.Common.{
  ℕ, ◌≡◌, refl, Bool, true, false, Option, none, some, List, [], ◌∷◌, ◌++◌, map, arith, ◌==◌,
  if◌then◌else◌, update, Outcome, ok, Bool-cases, inl, inr, ◌∙◌, ==-refl,
}
use libside.Callback.{EventState}
use libside.Callback.Invariant.{IsValid}
use libside.Callback.Unregister.{remove_callbacks_lem}
use libside.Registry.{
  EventsHandle, Notice, notice, remove_events, Side, World, side_init, enter, events_unregister,
  remove_events_node, remove_all_callbacks, unregister_each, side_exit,
}

abbrev pub AllValid : (ℕ → EventState) → Type 0
AllValid states = (d : ℕ) → IsValid (states d)

-- The descriptions that a list of pointers names.
unfoldable pub names : ℕ → List (Option ℕ) → Bool
names d [] = false
names d (none ∷ events) = names d events
names d (some e ∷ events) = let rest = names d events in if e == d then true else rest

unfoldable pub any_names : ℕ → List EventsHandle → Bool
any_names d [] = false
any_names d (h ∷ hs) = let rest = any_names d hs in if names d h.events then true else rest

-- No callback is left on the named events; one that had none has none.
pub record Cleared (named : ℕ → Bool) (before after : ℕ → EventState) : Type 0 where
  pub valid : AllValid after
  pub gone : (d : ℕ) → named d ≡ true → (after d).nr_callbacks ≡ 0
  pub still : (d : ℕ) → (before d).nr_callbacks ≡ 0 → (after d).nr_callbacks ≡ 0

pub update-AllValid :
    (states : ℕ → EventState) (d : ℕ) (es : EventState)
    → AllValid states
    → IsValid es
    → AllValid (update states d es)
update-AllValid states d es all new j = elim (Bool-cases (j == d)) [
  | inl here ↦ rw here new
  | inr other ↦ rw other (all j)
]

remove_all_callbacks-Cleared :
    (events : List (Option ℕ)) (states : ℕ → EventState)
    → AllValid states
    → (after : ℕ → EventState) × (remove_all_callbacks events states ≡ ok after)
      × Cleared (λ d. names d events) states after
unfolding remove_all_callbacks names
remove_all_callbacks-Cleared [] states all =
    (states, refl, record { valid = all; gone = λ d. cc; still = λ d h. h })
remove_all_callbacks-Cleared (none ∷ events) states all =
    remove_all_callbacks-Cleared events states all
remove_all_callbacks-Cleared (some e ∷ events) states all =
    let (es, done, new, empty, _) = remove_callbacks_lem (all e) in
    let (after, rest, c) =
      remove_all_callbacks-Cleared events (update states e es)
        (update-AllValid states e es all new) in
    (
      after,
      rw (done, rest),
      record {
        valid = c.valid;
        gone = λ d h. ground (arith, c.gone d, c.still d);
        still = λ d h. ground (arith, c.still d);
      },
    )

-- A library that is initialized and has not ended, with valid event states.
pub record Live (s : Side) : Type 0 where
  pub started : s.initialized ≡ true
  pub going : s.finalized ≡ false
  pub valid : AllValid s.states

pub enter-live {ℓ} :
    {A : Type ℓ} (w : World) (s : Side) (over : A) (body : Side → Outcome A)
    → s.initialized ≡ true
    → s.finalized ≡ false
    → enter w s over body ≡ body s
unfolding enter side_init
enter-live w s over body started going = simp (going, started)

-- What is left after the handles `hs` are given back one after the other.
pub record Emptied (hs : List EventsHandle) (s s' : Side) : Type 0 where
  pub live : Live s'
  pub none_left : s'.events_list ≡ []
  pub tracers : s'.tracer_list ≡ s.tracer_list
  pub cleared : Cleared (λ d. any_names d hs) s.states s'.states

after_unregister : EventsHandle → List EventsHandle → (ℕ → EventState) → Side → Side
after_unregister h rest states s = record s { events_list = rest; states = states }

events_unregister-ok :
    (w : World) (h : EventsHandle) (hs : List EventsHandle) (s : Side)
    → Live s
    → s.events_list ≡ h ∷ hs
    → (states : ℕ → EventState) × (events_unregister w (some h) s
        ≡ ok (after_unregister h hs states s, map (notice remove_events h) s.tracer_list))
      × Cleared (λ d. names d h.events) s.states states
unfolding events_unregister after_unregister
events_unregister-ok w h hs s live listed =
    let (states, done, c) = remove_all_callbacks-Cleared h.events s.states live.valid in
    let first : remove_events_node h.node s.events_list ≡ hs = rw listed (rw (==-refl h.node)) in
    (states, enter-live w s _ _ live.started live.going ∙ rw (done, first), c)

unregister_each-Emptied :
    (w : World) (hs : List EventsHandle) (s : Side)
    → Live s
    → s.events_list ≡ hs
    → (s' : Side) × (told : List Notice) × (unregister_each w hs s ≡ ok (s', told))
      × Emptied hs s s'
unfolding unregister_each any_names after_unregister
unregister_each-Emptied w [] s live listed = (
  s,
  [],
  refl,
  record {
    live = live;
    none_left = listed;
    tracers = refl;
    cleared = record { valid = live.valid; gone = λ d. cc; still = λ d h. h };
  },
)
unregister_each-Emptied w (h ∷ hs) s live listed =
    let (states, one, c) = events_unregister-ok w h hs s live listed in
    let t = after_unregister h hs states s in
    let live' : Live t = record { started = live.started; going = live.going; valid = c.valid } in
    let (s', told, rest, e) = unregister_each-Emptied w hs t live' refl in
    (
      s',
      map (notice remove_events h) s.tracer_list ++ told,
      rw (one, rest) refl,
      record {
        live = e.live;
        none_left = e.none_left;
        tracers = e.tracers;
        cleared = record {
          valid = e.cleared.valid;
          gone = λ d n. ground (arith, c.gone d, e.cleared.gone d, e.cleared.still d);
          still = λ d n. ground (arith, c.still d, e.cleared.still d);
        };
      },
    )

-- The end of a library that is initialized, not ended yet, and has valid event states succeeds: no
-- handle is left, the library is marked as ended, the event states are valid, and no event of a handle
-- keeps a callback, nor has one that had none before.
pub side_exit_lem :
    (w : World) (s : Side)
    → Live s
    → (s' : Side) × (told : List Notice) × (side_exit w s ≡ ok (s', told))
      × (s'.finalized ≡ true)
      × (s'.events_list ≡ [])
      × Cleared (λ d. any_names d s.events_list) s.states s'.states
unfolding side_exit
side_exit_lem w s live =
    let (s', told, done, e) = unregister_each-Emptied w s.events_list s live refl in
    (
      record s' { event_rcu_gp = none; statedump_rcu_gp = none; finalized = true },
      told,
      simp (live.going, done),
      refl,
      e.none_left,
      record { valid = e.cleared.valid; gone = e.cleared.gone; still = e.cleared.still },
    )
