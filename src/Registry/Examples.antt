-- ===== src/Registry/Examples.antt =====
-- The library of src/side.c with one tracer and one handle of events.
use libside.Registry.Delivery.{first_delivery}
use libside.Callback.{error_ok}
use libside.Common.{◌≡◌, ◌+◌, ◌*◌, ◌++◌, refl, true, false, some, none, List, [], ◌∷◌, ok}
use libside.Callback.Register.{registered}
use libside.Callback.Examples.{
  fresh_event, fresh_event-IsValid, tracer-Fits, one_callback, one_callback-IsValid,
  one_callback_live, tracer,
}
use libside.Dispatch.{invoke, shared_calls}
use libside.Registry.{
  Side, World, Notice, side_call, tracer_callback_register, events_handle, side_exit,
  events_register, tracer_register, side_init, enter,
}
use libside.Registry.Ledger.{inserted, removed, tracers_at, events_at}
use libside.Registry.History.{Calls, fresh, register_events, register_tracer, notices_balanced}
use libside.Registry.Exit.{Live, Cleared, any_names, side_exit_lem}
use libside.Registry.Callbacks.{side_call-live}

abbrev world : World
world = record {
  machine = record { possible_cpus = 1; calloc_ok = true; has_membarrier = true; has_rseq = true };
  atfork_ok = true;
}

-- Every description has the event with one callback.
abbrev started : Side
started = record {
  initialized = true;
  finalized = false;
  rseq_membarrier_available = true;
  event_rcu_gp = none;
  statedump_rcu_gp = none;
  states = λ d. one_callback;
  events_list = [];
  tracer_list = [];
}

abbrev with_handle : Side
with_handle = record started { events_list = events_handle 5 (some 7 ∷ none ∷ []) ∷ [] }

started-Live : Live started
started-Live = record { started = refl; going = refl; valid = λ d. one_callback-IsValid }

with_handle-Live : Live with_handle
with_handle-Live = record { started = refl; going = refl; valid = λ d. one_callback-IsValid }

record Run : Type 0 where
  last : Side
  log : List Notice
  calls : Calls world last log

-- A tracer at 3, then a handle at 5 that names the description at 7.
abbrev run : Run
unfolding enter events_register tracer_register side_init
run = record {
  last = _;
  log = _;
  calls =
      register_events (register_tracer (fresh {s = started} refl refl) (some 3) 40 50 refl) (some 5)
        (some 7 ∷ []) refl;
}

notices_balanced_example :
    inserted 3 5 run.log
    ≡ removed 3 5 run.log + tracers_at 3 run.last.tracer_list * events_at 5 run.last.events_list
notices_balanced_example = notices_balanced run.calls 3 5

side_exit_lem_example :
    (s' : Side) × (told : List Notice) × (side_exit world with_handle ≡ ok (s', told))
    × (s'.finalized ≡ true)
    × (s'.events_list ≡ [])
    × Cleared (λ d. any_names d with_handle.events_list) with_handle.states s'.states
side_exit_lem_example = side_exit_lem world with_handle with_handle-Live

side_call-live_example : side_call world false 7 0 started ≡ ok (started, invoke 4660 1 ∷ [])
unfolding registered
side_call-live_example = side_call-live world started started-Live 7 one_callback_live 0

-- The same library with no callback on any event.
abbrev quiet : Side
quiet = record started { states = λ d. fresh_event }

quiet-Live : Live quiet
quiet-Live = record { started = refl; going = refl; valid = λ d. fresh_event-IsValid }

first_delivery_example :
    (s' : Side) × (tracer_callback_register world true false 7 tracer quiet ≡ ok (s', error_ok))
    × Live s'
    × (side_call world (s'.states 7).variadic 7 8 s'
        ≡ ok (s', shared_calls (s'.states 7).enabled 8 ++ invoke 4660 1 ∷ []))
first_delivery_example =
    first_delivery world quiet 7 false tracer 8 quiet-Live tracer-Fits refl refl refl
