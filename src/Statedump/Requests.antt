-- ===== src/Statedump/Requests.antt =====
-- The requests for state dumps of src/side.c: what a request queues, what a cancellation removes, and
-- what the application runs.
use mathlib.Core.List.{append-nil}
use libside.Common.{
  ℕ, ◌+◌, ◌≡◌, ◌≢◌, refl, ap, ◌∙◌, Bool, true, false, List, [], ◌∷◌, ◌++◌, map, arith, ◌==◌, ◌||◌,
  ok, Bool-cases, inl, inr,
}
use libside.Callback.{error_ok, key_match_all}
use libside.Statedump.{
  Statedump, Request, StatedumpMode, polling, agent_thread, is_agent, Act, statedump_begin,
  call_back, statedump_end, wake_worker, wake_waiter, with_queue, alert, lock, unlock, perform,
  wake_waiters, unqueue, run_all, queue_statedump_pending, queue_all, unqueue_all,
  tracer_statedump_request, tracer_statedump_request_cancel, run_pending_requests,
  statedump_poll_pending_requests,
}

abbrev has_key : ℕ → List ℕ → Bool
has_key key [] = false
has_key key (k ∷ q) = (key == k) || has_key key q

-- No handle of the list has a pending notification with the key.
abbrev pub Unasked : ℕ → List Request → Type 0
Unasked key [] = Unit
Unasked key (h ∷ hs) = (has_key key h.notification_queue ≡ false) × Unasked key hs

-- A handle with one more notification, the last in its queue.
abbrev pub asked : ℕ → Request → Request
asked key h = with_queue h (h.notification_queue ++ key ∷ [])

alert-lock : (m : StatedumpMode) (s : Statedump) → (alert m s).statedump_lock ≡ s.statedump_lock
alert-lock polling s = refl
alert-lock agent_thread s = refl

queue_all-ok :
    (key : ℕ) (hs : List Request) (s : Statedump)
    → (s' : Statedump) × (queue_all true key hs s ≡ ok (map (asked key) hs, s'))
      × (s'.statedump_lock ≡ s.statedump_lock)
unfolding queue_all queue_statedump_pending
queue_all-ok key [] s = (s, refl, refl)
queue_all-ok key (h ∷ hs) s =
    let (s', e, l) = queue_all-ok key hs (alert h.mode s) in
    (s', rw e refl, l ∙ alert-lock h.mode s)

unqueue-append_key :
    (key : ℕ) (q : List ℕ)
    → key ≢ key_match_all
    → has_key key q ≡ false
    → unqueue key (q ++ key ∷ []) ≡ q
unfolding unqueue
unqueue-append_key key [] some_key h = ground arith
unqueue-append_key key (k ∷ q) some_key h =
    let rest : has_key key q ≡ false = ground arith in
    let e : unqueue key (q ++ key ∷ []) ≡ q = unqueue-append_key key q some_key rest in
    rw e (ground arith)

unqueue_all-asked :
    (key : ℕ) (hs : List Request)
    → key ≢ key_match_all
    → Unasked key hs
    → unqueue_all key (map (asked key) hs) ≡ hs
unfolding unqueue_all
unqueue_all-asked key [] some_key u = refl
unqueue_all-asked key (h ∷ hs) some_key (u, us) =
    rw
      (unqueue-append_key key h.notification_queue some_key u, unqueue_all-asked key hs some_key us)
      refl

-- If calloc() does not fail, a request with a key of one tracer succeeds and puts a notification with
-- the key last in the queue of every handle. It returns with the recursive mutex locked twice more
-- than it was called with: the second call of pthread_mutex_lock() stands for an unlock.
pub tracer_statedump_request_lem :
    (key : ℕ) (s : Statedump)
    → key ≢ key_match_all
    → (s' : Statedump) × (tracer_statedump_request true key s ≡ ok (s', error_ok))
      × (s'.statedump_list ≡ map (asked key) s.statedump_list)
      × (s'.statedump_lock ≡ s.statedump_lock + 2)
unfolding tracer_statedump_request
tracer_statedump_request_lem key s some_key =
    let (s', e, l) = queue_all-ok key s.statedump_list (lock s) in
    let keyed : (key == key_match_all) ≡ false = ground arith in
    (
      lock (record s' { statedump_list = map (asked key) s.statedump_list }),
      rw (keyed, e) refl,
      refl,
      omega (arith, l),
    )

-- A cancellation of a request that no handle had pending before takes back what the request queued:
-- every handle has the queue it had.
pub cancel-request :
    (key : ℕ) (s : Statedump)
    → key ≢ key_match_all
    → Unasked key s.statedump_list
    → (s' : Statedump) × (tracer_statedump_request true key s ≡ ok (s', error_ok))
      × ((tracer_statedump_request_cancel key s').0.statedump_list ≡ s.statedump_list)
unfolding tracer_statedump_request_cancel
cancel-request key s some_key u =
    let (s', e, queued, _) = tracer_statedump_request_lem key s some_key in
    let keyed : (key == key_match_all) ≡ false = ground arith in
    (s', e, rw (keyed, queued) (unqueue_all-asked key s.statedump_list some_key u))

-- The keys for which the application was called, in order.
unfoldable pub called : List Act → List ℕ
called [] = []
called (call_back cb key ∷ acts) = key ∷ called acts
called (_ ∷ acts) = called acts

called-append : (xs ys : List Act) → called (xs ++ ys) ≡ called xs ++ called ys
unfolding called
called-append [] ys = refl
called-append (statedump_begin k n ∷ xs) ys = called-append xs ys
called-append (call_back c k ∷ xs) ys = ap (λ ks. k ∷ ks) (called-append xs ys)
called-append (statedump_end k n ∷ xs) ys = called-append xs ys
called-append (wake_worker ∷ xs) ys = called-append xs ys
called-append (wake_waiter ∷ xs) ys = called-append xs ys

called-run_all : (h : Request) (q : List ℕ) → called (run_all h q) ≡ q
unfolding called run_all
called-run_all h [] = refl
called-run_all h (k ∷ q) = ap (λ ks. k ∷ ks) (called-run_all h q)

called-wake_waiters :
    (m : StatedumpMode) (s : Statedump) → called (wake_waiters m s).acts ≡ called s.acts
unfolding called
called-wake_waiters polling s = refl
called-wake_waiters agent_thread s =
    called-append s.acts (wake_waiter ∷ []) ∙ append-nil (called s.acts)

lock-wake_waiters :
    (m : StatedumpMode) (s : Statedump) → (wake_waiters m s).statedump_lock ≡ s.statedump_lock
lock-wake_waiters polling s = refl
lock-wake_waiters agent_thread s = omega arith

poll-drained :
    (h : Request) (s : Statedump) → (statedump_poll_pending_requests (with_queue h []) s).0 ≡ false
unfolding statedump_poll_pending_requests
poll-drained h s = elim (Bool-cases (is_agent h.mode)) [ inl e ↦ rw e refl | inr e ↦ rw e refl ]

-- Running the pending requests of a handle calls the application once for each notification, in the
-- order of the queue, leaves the queue empty, so that a poll finds nothing pending, and gives the
-- mutex back.
pub run_pending_requests_lem :
    (h : Request) (s : Statedump)
    → let (h', s') = run_pending_requests h s in
      (called s'.acts ≡ called s.acts ++ h.notification_queue)
      × (h'.notification_queue ≡ [])
      × ((statedump_poll_pending_requests h' s').0 ≡ false)
      × (s'.statedump_lock ≡ s.statedump_lock)
unfolding run_pending_requests statedump_poll_pending_requests
run_pending_requests_lem h s =
    let dumped = perform (run_all h h.notification_queue) (unlock (lock s)) in
    let ran : called dumped.acts ≡ called s.acts ++ h.notification_queue =
      called-append s.acts (run_all h h.notification_queue)
      ∙ ap (λ ks. called s.acts ++ ks) (called-run_all h h.notification_queue) in
    (
      called-wake_waiters h.mode dumped ∙ ran,
      refl,
      poll-drained h _,
      lock-wake_waiters h.mode dumped ∙ omega arith,
    )
