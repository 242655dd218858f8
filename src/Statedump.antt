-- ===== src/Statedump.antt =====
-- src/side.c: the requests for state dumps (their queues of notifications, the tracers that ask for a
-- dump or cancel it, the application that runs the pending ones) and the keys of tracers.
--
-- The rings of src/list.h are the lists that they hold (see Ring), a notification is its key. The
-- state is the one a single thread sees; `statedump_lock` counts how often it holds the recursive
-- mutex `side_statedump_lock`.
mod Keys
mod Requests
mod Examples
use libside.Common.{
  ℕ, ◌+◌, ◌-◌, ◌%◌, ◌^◌, Bool, true, false, not, ◌||◌, Option, none, some, List, [], ◌∷◌, ◌++◌,
  ◌==◌, if◌then◌else◌, Outcome, ok, aborted, ◌>>=◌,
}
use libside.Callback.{SideError, error_ok, inval, nomem, key_match_all}

pub data StatedumpMode : Type 0 where
  polling agent_thread : StatedumpMode

-- `struct side_statedump_request_handle`.
pub record Request : Type 0 where
  pub notification_queue : List ℕ
  pub cb : ℕ
  pub name : ℕ
  pub mode : StatedumpMode

-- What the library does that others see: the two events around a dump, the call of the function of
-- the application, and the wake-ups of the agent thread and of the threads that wait for it.
pub data Act : Type 0 where
  statedump_begin : (key name : ℕ) → Act
  call_back : (cb key : ℕ) → Act
  statedump_end : (key name : ℕ) → Act
  wake_worker wake_waiter : Act

-- The bit AGENT_THREAD_STATE_HANDLE_REQUEST of the agent thread's state is `handle_request`.
pub record Statedump : Type 0 where
  pub statedump_list : List Request
  pub statedump_lock : ℕ
  pub handle_request : Bool
  pub acts : List Act

abbrev pub is_agent : StatedumpMode → Bool
is_agent polling = false
is_agent agent_thread = true

abbrev pub with_queue : Request → List ℕ → Request
with_queue h q = record h { notification_queue = q }

-- What `queue_statedump_pending` leaves of the agent thread's state, and whom it wakes.
abbrev pub alert : StatedumpMode → Statedump → Statedump
alert polling s = s
alert agent_thread s = record s { handle_request = true; acts = s.acts ++ wake_worker ∷ [] }

-- `calloc_ok` is false where calloc() fails.
unfoldable pub queue_statedump_pending :
    (calloc_ok : Bool) → Request → ℕ → Statedump → Outcome (Request × Statedump)
queue_statedump_pending calloc_ok h key s =
    if calloc_ok
    then ok (with_queue h (h.notification_queue ++ key ∷ []), alert h.mode s)
    else aborted

unfoldable pub unqueue : ℕ → List ℕ → List ℕ
unqueue key [] = []
unqueue key (k ∷ q) =
    let rest = unqueue key q in if (key == key_match_all) || (key == k) then rest else k ∷ rest

abbrev pub unqueue_statedump_pending : Request → ℕ → Request
unqueue_statedump_pending h key = with_queue h (unqueue key h.notification_queue)

abbrev pub statedump_run : Request → ℕ → List Act
statedump_run h key =
    statedump_begin key h.name ∷ call_back h.cb key ∷ statedump_end key h.name ∷ []

unfoldable pub run_all : Request → List ℕ → List Act
run_all h [] = []
run_all h (k ∷ q) = statedump_run h k ++ run_all h q

abbrev pub lock : Statedump → Statedump
lock s = record s { statedump_lock = s.statedump_lock + 1 }

abbrev pub unlock : Statedump → Statedump
unlock s = record s { statedump_lock = s.statedump_lock - 1 }

abbrev pub perform : List Act → Statedump → Statedump
perform acts s = record s { acts = s.acts ++ acts }

abbrev pub wake_waiters : StatedumpMode → Statedump → Statedump
wake_waiters polling s = s
wake_waiters agent_thread s = unlock (perform (wake_waiter ∷ []) (lock s))

-- `_side_statedump_run_pending_requests`.
unfoldable pub run_pending_requests : Request → Statedump → Request × Statedump
run_pending_requests h s =
    let taken = unlock (lock s) in
    let dumped = perform (run_all h h.notification_queue) taken in
    (with_queue h [], wake_waiters h.mode dumped)

unfoldable pub statedump_poll_pending_requests : Request → Statedump → Bool × Statedump
statedump_poll_pending_requests h s =
    if is_agent h.mode
    then (false, s)
    else (elim h.notification_queue [ [] ↦ false | _ ∷ _ ↦ true ], unlock (lock s))

unfoldable pub statedump_run_pending_requests :
    Request → Statedump → SideError × Request × Statedump
unfolding run_pending_requests
statedump_run_pending_requests h s =
    if is_agent h.mode
    then (inval, h, s)
    else (let (h', s') = run_pending_requests h s in (error_ok, h', s'))

-- The loop of `side_tracer_statedump_request` over the handles.
unfoldable pub queue_all : Bool → ℕ → List Request → Statedump → Outcome (List Request × Statedump)
queue_all calloc_ok key [] s = ok ([], s)
queue_all calloc_ok key (h ∷ hs) s = do
  (h', s') ← queue_statedump_pending calloc_ok h key s
  (hs', s'') ← queue_all calloc_ok key hs s'
  ok (h' ∷ hs', s'')

unfoldable pub tracer_statedump_request :
    (calloc_ok : Bool) → ℕ → Statedump → Outcome (Statedump × SideError)
unfolding queue_all
tracer_statedump_request calloc_ok key s = if key == key_match_all then ok (s, inval) else do
  (hs, s') ← queue_all calloc_ok key s.statedump_list (lock s)
  ok (lock (record s' { statedump_list = hs }), error_ok)

-- The loop of `side_tracer_statedump_request_cancel` over the handles.
unfoldable pub unqueue_all : ℕ → List Request → List Request
unfolding unqueue
unqueue_all key [] = []
unqueue_all key (h ∷ hs) = unqueue_statedump_pending h key ∷ unqueue_all key hs

unfoldable pub tracer_statedump_request_cancel : ℕ → Statedump → Statedump × SideError
unfolding unqueue_all
tracer_statedump_request_cancel key s =
    if key == key_match_all
    then (s, inval)
    else (lock (record (lock s) { statedump_list = unqueue_all key s.statedump_list }), error_ok)

-- `side_tracer_request_key`: the key, if there is one, the answer, and the next value of
-- `side_key_next`.
unfoldable pub tracer_request_key : ℕ → Option ℕ × SideError × ℕ
tracer_request_key next =
    if next == 0 then (none, nomem, next) else (some next, error_ok, (next + 1) % 2 ^ 64)

-- SIDE_KEY_RESERVED_RANGE_END, the first value of `side_key_next`.
abbrev pub reserved_range_end : ℕ
reserved_range_end = 8
