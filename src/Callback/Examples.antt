-- ===== src/Callback/Examples.antt =====
-- Registrations on an event of src/side.c that has no callback yet, and what follows them.
use libside.Common.{◌≡◌, refl, true, false, [], ◌∷◌, arith, ok, fault, ◌-◌, ◌*◌}
use libside.Callback.{
  SideCallback, callback, EventState, Update, error_ok, empty_callback, uint32_max,
  callback_register, callback_unregister, entry,
}
use libside.Callback.Bytes.{word}
use libside.Callback.Entry.{Fits, entry-call_zero}
use libside.Callback.Live.{position, live_from-stop}
use libside.Callback.Invariant.{IsValid, live, live-nil}
use libside.Callback.Register.{
  callback_register_lem, registered, registered-IsValid, callback_register-fault, register_result,
  register_answer,
}
use libside.Callback.Growth.{live-registered_first}
use libside.Callback.Delivery.{second_register}
use libside.Callback.Unregister.{callback_unregister_lem, unregister_result}

abbrev pub fresh_event : EventState
fresh_event = record {
  version = 0;
  variadic = false;
  nr_callbacks = 0;
  enabled = 0;
  callbacks = empty_callback;
}

abbrev pub tracer : SideCallback
tracer = callback 4660 1 8

abbrev pub other_tracer : SideCallback
other_tracer = callback 22136 2 9

pub fresh_event-IsValid : IsValid fresh_event
unfolding entry word
fresh_event-IsValid = record {
  version = refl;
  few = omega arith;
  sized = refl;
  owned = refl;
  bytes = λ i. omega arith;
  ended = refl;
  counted = refl;
}

pub tracer-Fits : Fits tracer
tracer-Fits = record { call = omega arith; priv = omega arith; key = omega arith }

pub other_tracer-Fits : Fits other_tracer
other_tracer-Fits = record { call = omega arith; priv = omega arith; key = omega arith }

abbrev pub one_callback : EventState
one_callback = registered fresh_event tracer

pub one_callback-IsValid : IsValid one_callback
one_callback-IsValid = registered-IsValid fresh_event-IsValid tracer (omega arith)

pub one_callback_live : live one_callback ≡ ok (tracer ∷ [])
one_callback_live = live-registered_first fresh_event-IsValid tracer tracer-Fits (omega arith) refl

callback_register_lem_example :
    callback_register true fresh_event tracer
    ≡ ok (register_result fresh_event tracer (register_answer true 0 (position 0 [] tracer)))
callback_register_lem_example =
    callback_register_lem fresh_event-IsValid true tracer (omega arith)
      (live-nil fresh_event-IsValid refl)

callback_unregister_lem_example :
    callback_unregister true one_callback tracer
    ≡ ok (unregister_result true one_callback (position 0 (tracer ∷ []) tracer))
callback_unregister_lem_example =
    callback_unregister_lem one_callback-IsValid true tracer one_callback_live

-- The lowest byte of the first callback's address 0x1234 is 0x34.
second_register_example :
    (u : Update) × (callback_register true one_callback other_tracer ≡ ok u)
    × (u.error ≡ error_ok)
    × IsValid u.state
    × (live u.state ≡ ok (callback 52 0 0 ∷ other_tracer ∷ []))
unfolding registered
second_register_example =
    second_register one_callback-IsValid other_tracer other_tracer-Fits (omega arith) refl
      one_callback_live refl

-- An array of 2^32 - 2 callbacks; the code would reach none of them.
abbrev full_event : EventState
full_event = record {
  version = 0;
  variadic = false;
  nr_callbacks = uint32_max - 1;
  enabled = 1;
  callbacks = record { static = false; size = 24 * uint32_max; byte = λ i. 0 };
}

full_event-IsValid : IsValid full_event
full_event-IsValid = record {
  version = refl;
  few = omega arith;
  sized = omega arith;
  owned = refl;
  bytes = λ i. omega arith;
  ended = entry-call_zero full_event.callbacks (uint32_max - 1) (λ k l u. refl);
  counted = refl;
}

full_event_live : live full_event ≡ ok []
unfolding live
full_event_live =
    live_from-stop (uint32_max - 1) full_event.callbacks 0
      (entry-call_zero full_event.callbacks 0 (λ k l u. refl))

callback_register-fault_example : callback_register true full_event tracer ≡ fault
unfolding position
callback_register-fault_example =
    callback_register-fault full_event-IsValid tracer refl full_event_live refl
