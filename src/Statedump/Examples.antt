-- ===== src/Statedump/Examples.antt =====
-- Requests for state dumps of src/side.c, with one handle that the application polls and one that the
-- agent thread serves.
use libside.Common.{◌≡◌, refl, true, false, [], ◌∷◌, ◌++◌, map, arith, ok}
use libside.Callback.{error_ok}
use libside.Statedump.{
  Request, Statedump, polling, agent_thread, tracer_statedump_request,
  tracer_statedump_request_cancel, run_pending_requests, statedump_poll_pending_requests,
}
use libside.Statedump.Requests.{
  asked, called, tracer_statedump_request_lem, cancel-request, run_pending_requests_lem,
}

abbrev polled : Request
polled = record { notification_queue = 8 ∷ 9 ∷ []; cb = 4660; name = 1; mode = polling }

abbrev served : Request
served = record { notification_queue = []; cb = 22136; name = 2; mode = agent_thread }

abbrev idle_state : Statedump
idle_state = record {
  statedump_list = polled ∷ served ∷ [];
  statedump_lock = 0;
  handle_request = false;
  acts = [];
}

tracer_statedump_request_lem_example :
    (s' : Statedump) × (tracer_statedump_request true 10 idle_state ≡ ok (s', error_ok))
    × (s'.statedump_list ≡ map (asked 10) idle_state.statedump_list)
    × (s'.statedump_lock ≡ 2)
tracer_statedump_request_lem_example = tracer_statedump_request_lem 10 idle_state (omega arith)

cancel-request_example :
    (s' : Statedump) × (tracer_statedump_request true 10 idle_state ≡ ok (s', error_ok))
    × ((tracer_statedump_request_cancel 10 s').0.statedump_list ≡ polled ∷ served ∷ [])
cancel-request_example = cancel-request 10 idle_state (omega arith) (refl, (refl, tt))

run_pending_requests_lem_example :
    let (h', s') = run_pending_requests polled idle_state in
    (called s'.acts ≡ called [] ++ 8 ∷ 9 ∷ [])
    × (h'.notification_queue ≡ [])
    × ((statedump_poll_pending_requests h' s').0 ≡ false)
    × (s'.statedump_lock ≡ 0)
run_pending_requests_lem_example = run_pending_requests_lem polled idle_state
