-- ===== src/Registry.antt =====
-- src/side.c: the state of the library, its lazy initialization and its end, the registration of
-- events and of the tracers that are told of them, and the entry points for tracer callbacks.
--
-- The lists of handles are rings of src/list.h (see Ring); here they are the lists that the rings
-- hold. A description is named by its address, and so is a handle.
pub mod Ledger
pub mod Balance
pub mod History
pub mod Callbacks
pub mod Exit
pub mod Delivery
mod Examples
use libside.Common.{
  ℕ, Bool, true, false, not, ◌||◌, Option, none, some, List, [], ◌∷◌, ◌++◌, map, ◌==◌,
  if◌then◌else◌, update, Outcome, ok, aborted, ◌>>=◌,
}
use libside.Callback.{
  SideCallback, EventState, SideError, inval, exiting, callback_register, callback_unregister,
  remove_callbacks,
}
use libside.Dispatch.{Invocation, event_call}
use libside.Rcu.{Machine, GpState, gp_init}

pub record EventsHandle : Type 0 where
  pub node : ℕ
  pub events : List (Option ℕ)

pub record TracerHandle : Type 0 where
  pub node : ℕ
  pub cb : ℕ
  pub priv : ℕ

pub data Notification : Type 0 where
  insert_events remove_events : Notification

-- One call of the function of the tracer `to` about the events of the handle `of`.
pub record Notice : Type 0 where
  pub to : TracerHandle
  pub kind : Notification
  pub of : EventsHandle

abbrev pub notice : Notification → EventsHandle → TracerHandle → Notice
notice k h t = record { to = t; kind = k; of = h }

pub record Side : Type 0 where
  pub initialized : Bool
  pub finalized : Bool
  pub rseq_membarrier_available : Bool
  pub event_rcu_gp : Option GpState
  pub statedump_rcu_gp : Option GpState
  pub states : ℕ → EventState
  pub events_list : List EventsHandle
  pub tracer_list : List TracerHandle

-- What the system answers when the library is initialized.
pub record World : Type 0 where
  pub machine : Machine
  pub atfork_ok : Bool

unfoldable pub side_init : World → Side → Outcome Side
side_init w s = if s.initialized then ok s else do
  (event_gp, available) ← gp_init w.machine s.rseq_membarrier_available
  (statedump_gp, available) ← gp_init w.machine available
  if not w.atfork_ok
      then aborted
      else ok (record s {
        event_rcu_gp = some event_gp;
        statedump_rcu_gp = some statedump_gp;
        rseq_membarrier_available = available;
        initialized = true;
      })

-- The prologue of the entry points: nothing is done any more after the end, and the first call
-- initializes the library.
unfoldable pub enter {ℓ} : {A : Type ℓ} → World → Side → A → (Side → Outcome A) → Outcome A
enter w s over body = if s.finalized then ok over else (side_init w s >>= body)

-- `_side_call` with its two callers: the key is 0 for `side_call`, the tracer's for
-- `side_statedump_call`.
unfoldable pub side_call :
    World → (variadic : Bool) → (desc key : ℕ) → Side → Outcome (Side × List Invocation)
unfolding enter
side_call w variadic desc key s =
    enter w s (s, []) λ s. do called ← event_call variadic (s.states desc) key; ok (s, called)

abbrev pub set_state : Side → ℕ → EventState → Side
set_state s desc es = record s { states = update s.states desc es }

-- The checks before the prologue: the function's kind must be the event's, and it must not be NULL.
abbrev pub bad_callback : Side → (variadic : Bool) → ℕ → SideCallback → Bool
bad_callback s variadic desc cb =
    (if variadic then not (s.states desc).variadic else (s.states desc).variadic) || (cb.call == 0)

-- `side_tracer_callback_register`, and with `variadic` its variadic twin.
unfoldable pub tracer_callback_register :
    World
    → (calloc_ok variadic : Bool) → (desc : ℕ) → SideCallback
    → Side
    → Outcome (Side × SideError)
unfolding enter
tracer_callback_register w calloc_ok variadic desc cb s =
    if bad_callback s variadic desc cb
    then ok (s, inval)
    else enter w s (s, exiting)
        λ s. do
          u ← callback_register calloc_ok (s.states desc) cb
          ok (set_state s desc u.state, u.error)

-- `side_tracer_callback_unregister`, and its variadic twin.
unfoldable pub tracer_callback_unregister :
    World
    → (calloc_ok variadic : Bool) → (desc : ℕ) → SideCallback
    → Side
    → Outcome (Side × SideError)
unfolding enter
tracer_callback_unregister w calloc_ok variadic desc cb s =
    if bad_callback s variadic desc cb
    then ok (s, inval)
    else enter w s (s, exiting)
        λ s. do
          u ← callback_unregister calloc_ok (s.states desc) cb
          ok (set_state s desc u.state, u.error)

abbrev pub events_handle : ℕ → List (Option ℕ) → EventsHandle
events_handle n events = record { node = n; events = events }

abbrev pub tracer_handle : (node cb priv : ℕ) → TracerHandle
tracer_handle n cb priv = record { node = n; cb = cb; priv = priv }

abbrev add_events :
    Option ℕ → List (Option ℕ) → Side → Outcome (Side × Option EventsHandle × List Notice)
add_events none events s = ok (s, none, [])
add_events (some n) events s =
    let h = events_handle n events in
    ok (
      record s { events_list = s.events_list ++ h ∷ [] },
      some h,
      map (notice insert_events h) s.tracer_list,
    )

-- `side_events_register`; `node` is what calloc() returns.
unfoldable pub events_register :
    World
    → (node : Option ℕ) → List (Option ℕ)
    → Side
    → Outcome (Side × Option EventsHandle × List Notice)
unfolding enter
events_register w node events s = enter w s (s, none, []) (add_events node events)

abbrev pub remove_events_node : ℕ → List EventsHandle → List EventsHandle
remove_events_node n [] = []
remove_events_node n (h ∷ hs) =
    let rest = remove_events_node n hs in if h.node == n then hs else h ∷ rest

abbrev pub remove_tracer_node : ℕ → List TracerHandle → List TracerHandle
remove_tracer_node n [] = []
remove_tracer_node n (h ∷ hs) =
    let rest = remove_tracer_node n hs in if h.node == n then hs else h ∷ rest

-- The loop of `side_events_unregister` over the events of the handle; NULL pointers are skipped.
unfoldable pub remove_all_callbacks : List (Option ℕ) → (ℕ → EventState) → Outcome (ℕ → EventState)
remove_all_callbacks [] states = ok states
remove_all_callbacks (none ∷ events) states = remove_all_callbacks events states
remove_all_callbacks (some desc ∷ events) states = do
  es ← remove_callbacks (states desc)
  remove_all_callbacks events (update states desc es)

unfoldable pub events_unregister : World → Option EventsHandle → Side → Outcome (Side × List Notice)
unfolding remove_all_callbacks enter
events_unregister w none s = ok (s, [])
events_unregister w (some h) s =
    enter w s (s, [])
      λ s. do
        states ← remove_all_callbacks h.events s.states
        ok (
          record s { events_list = remove_events_node h.node s.events_list; states = states },
          map (notice remove_events h) s.tracer_list,
        )

abbrev add_tracer :
    Option ℕ → (cb priv : ℕ) → Side → Outcome (Side × Option TracerHandle × List Notice)
add_tracer none cb priv s = ok (s, none, [])
add_tracer (some n) cb priv s =
    let t = tracer_handle n cb priv in
    ok (
      record s { tracer_list = s.tracer_list ++ t ∷ [] },
      some t,
      map (λ h. notice insert_events h t) s.events_list,
    )

-- `side_tracer_event_notification_register`; `node` is what calloc() returns.
unfoldable pub tracer_register :
    World
    → (node : Option ℕ) → (cb priv : ℕ) → Side
    → Outcome (Side × Option TracerHandle × List Notice)
unfolding enter
tracer_register w node cb priv s = enter w s (s, none, []) (add_tracer node cb priv)

-- `side_tracer_event_notification_unregister`
unfoldable pub tracer_unregister : World → TracerHandle → Side → Outcome (Side × List Notice)
unfolding enter
tracer_unregister w t s =
    enter w s (s, [])
      λ s. ok (
        record s { tracer_list = remove_tracer_node t.node s.tracer_list },
        map (λ h. notice remove_events h t) s.events_list,
      )

-- The loop of `side_exit`.
unfoldable pub unregister_each : World → List EventsHandle → Side → Outcome (Side × List Notice)
unregister_each w [] s = ok (s, [])
unregister_each w (h ∷ hs) s = do
  (s, told) ← events_unregister w (some h) s
  (s, more) ← unregister_each w hs s
  ok (s, told ++ more)

unfoldable pub side_exit : World → Side → Outcome (Side × List Notice)
unfolding unregister_each
side_exit w s = if s.finalized then ok (s, []) else do
  (s, told) ← unregister_each w s.events_list s
  ok (record s { event_rcu_gp = none; statedump_rcu_gp = none; finalized = true }, told)
