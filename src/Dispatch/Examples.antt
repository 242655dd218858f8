-- ===== src/Dispatch/Examples.antt =====
-- Calls of an event of src/side.c with one callback.
use libside.Common.{◌≡◌, false, [], ◌∷◌, ok}
use libside.Callback.Examples.{one_callback, one_callback-IsValid, one_callback_live}
use libside.Callback.Register.{registered}
use libside.Dispatch.{invoke, event_call}
use libside.Dispatch.Laws.{event_call-live}

event_call-live_example : event_call false one_callback 0 ≡ ok (invoke 4660 1 ∷ [])
unfolding registered
event_call-live_example = event_call-live 0 one_callback-IsValid one_callback_live
