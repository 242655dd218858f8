-- ===== src/Agent.antt =====
-- src/side.c: the agent thread that runs the pending state dumps, `statedump_agent_func`, with the
-- functions that start, wake, pause and end it.
--
-- The steps are those that another thread can see: the critical sections of `side_statedump_lock`,
-- the loads and the atomic changes of the state word. `side_agent_thread_lock` has one owner at a time.
-- Handles are numbered in the order of their registration, which is that of `side_statedump_list`; a
-- handle that is gone keeps its number, and an empty queue. An allocation or a thread creation that
-- fails aborts the program and is left out.
pub mod Pause
pub mod Fork
pub mod Requests
mod Examples
use libside.Common.{
  ℕ, suc, ◌+◌, ◌-◌, ◌≤◌, ◌<◌, ◌≡◌, ◌≢◌, Bool, true, false, not, ◌&&◌, ◌||◌, List, [], ◌∷◌, ◌++◌,
  ◌==◌, ltb, if◌then◌else◌, update,
}
use libside.Callback.{key_match_all}
use libside.Statedump.{
  Request, StatedumpMode, polling, agent_thread, is_agent, Act, with_queue,
  unqueue_statedump_pending, run_all,
}

-- `enum agent_thread_state`, a word of four bits.
pub record Word : Type 0 where
  pub handle_request : Bool
  pub exit : Bool
  pub pause : Bool
  pub pause_ack : Bool

abbrev pub blocked : Word
blocked = record { handle_request = false; exit = false; pause = false; pause_ack = false }

abbrev pub is_blocked : Word → Bool
is_blocked w = not (w.handle_request || w.exit || w.pause || w.pause_ack)

-- Where the agent thread is: not created, before its load of the word, in pthread_cond_wait(), after
-- the load with what it has read, in the loop of a pause, before the visit of a handle, with the
-- notifications that it has taken from one, or at its end.
pub data Worker : Type 0 where
  absent top asleep paused gone : Worker
  decided : Word → Worker
  visiting : ℕ → Worker
  dumping : ℕ → List ℕ → Worker

-- The owner of `side_agent_thread_lock`: nobody, a thread in `side_before_fork` that waits for the
-- agent thread, a thread in fork(), or one in `statedump_agent_thread_join`.
pub data Owner : Type 0 where
  nobody pausing forking joining : Owner

pub record Handle : Type 0 where
  pub live : Bool
  pub request : Request

pub record AgentThread : Type 0 where
  pub ref : ℕ
  pub word : Word
  pub worker : Worker
  pub owner : Owner
  pub next_handle : ℕ
  pub handles : ℕ → Handle
  pub acts : List Act

-- pthread_cond_broadcast() on `worker_cond`.
abbrev pub wake_worker : Worker → Worker
wake_worker asleep = top
wake_worker w = w

abbrev pub set_request : AgentThread → ℕ → Request → AgentThread
set_request s i r = record s {
  handles = update s.handles i (record { live = (s.handles i).live; request = r });
}

-- `queue_statedump_pending`, for the handle with the number `i`.
abbrev pub queue_pending : AgentThread → ℕ → ℕ → AgentThread
queue_pending s i key =
    let r = (s.handles i).request in
    let t = set_request s i (with_queue r (r.notification_queue ++ key ∷ [])) in
    if is_agent r.mode
    then record t { word = record s.word { handle_request = true }; worker = wake_worker s.worker }
    else t

-- One pass through the outer loop of `statedump_agent_func`, from the load on: the first step of it is
-- the inner loop under the lock, which ends in pthread_cond_wait() or with the word.
abbrev pub load_state : Word → Worker
load_state w = if is_blocked w then asleep else decided w

-- What the thread does about the word that it has read.
abbrev pub decide : Word → AgentThread → AgentThread
decide w s =
    if w.exit
    then record s { worker = gone }
    else if w.pause
    then record s { word = record s.word { pause_ack = true }; worker = paused }
    else record s { word = record s.word { handle_request = false }; worker = visiting 0 }

-- `_side_statedump_run_pending_requests` up to the unlock: the notifications are the thread's.
abbrev pub take_pending : ℕ → AgentThread → AgentThread
take_pending j s =
    let r = (s.handles j).request in
    record (set_request s j (with_queue r [])) { worker = dumping j r.notification_queue }

abbrev pub agent_at : Worker → AgentThread → AgentThread
agent_at absent s = s
agent_at top s = record s { worker = load_state s.word }
agent_at asleep s = s
agent_at paused s = if s.word.pause then s else record s { worker = top }
agent_at gone s = s
agent_at (decided w) s = decide w s
agent_at (visiting j) s =
    if ltb j s.next_handle then take_pending j s else record s { worker = top }
agent_at (dumping j q) s = record s {
  worker = visiting (suc j);
  acts = s.acts ++ run_all (s.handles j).request q;
}

-- A step of `statedump_agent_func`.
unfoldable pub statedump_agent_func : AgentThread → AgentThread
statedump_agent_func s = agent_at s.worker s

-- `statedump_agent_thread_get`, with `statedump_agent_thread_init`.
abbrev pub thread_get : AgentThread → AgentThread
thread_get s =
    if s.ref == 0
    then record s { ref = 1; word = blocked; worker = top }
    else record s { ref = s.ref + 1 }

-- `statedump_agent_thread_put`; the owner goes on to the join where there is one.
abbrev pub thread_put : AgentThread → AgentThread
thread_put s =
    if s.ref == 1
    then record s {
      ref = 0;
      word = record s.word { exit = true };
      worker = wake_worker s.worker;
      owner = joining;
    }
    else record s { ref = s.ref - 1 }

abbrev pub new_handle : (cb name : ℕ) → StatedumpMode → Handle
new_handle cb name mode = record {
  live = true;
  request = record { notification_queue = []; cb = cb; name = name; mode = mode };
}

-- The insertion at the tail of `side_statedump_list`.
abbrev pub add_handle : Handle → AgentThread → AgentThread
add_handle h s = record s {
  handles = update s.handles s.next_handle h;
  next_handle = suc s.next_handle;
}

-- `side_statedump_request_notification_register`, up to the wait for the first dump.
unfoldable pub notification_register : (cb name : ℕ) → StatedumpMode → AgentThread → AgentThread
notification_register cb name mode s =
    let t : AgentThread = if is_agent mode then thread_get s else s in
    queue_pending (add_handle (new_handle cb name mode) t) t.next_handle key_match_all

-- `side_statedump_request_notification_unregister`, up to the join.
unfoldable pub notification_unregister : ℕ → AgentThread → AgentThread
notification_unregister i s =
    let r = (s.handles i).request in
    let t = record s {
      handles =
          update s.handles i
            (record { live = false; request = unqueue_statedump_pending r key_match_all });
    } in
    if is_agent r.mode then thread_put t else t

-- `statedump_agent_thread_join`, with `statedump_agent_thread_fini`, after the end of the thread.
abbrev pub thread_join : AgentThread → AgentThread
thread_join s = record s { word = blocked; worker = absent; owner = nobody }

-- `side_before_fork` up to the loop, and past it where there is no thread to wait for.
unfoldable pub before_fork : AgentThread → AgentThread
before_fork s = if s.ref == 0 then record s { owner = forking } else record s {
  word = record s.word { pause = true };
  worker = wake_worker s.worker;
  owner = pausing;
}

unfoldable pub after_fork_parent : AgentThread → AgentThread
after_fork_parent s = record s {
  word = if s.ref == 0 then s.word else record s.word { pause = false; pause_ack = false };
  owner = nobody;
}

-- In the child, where the agent thread does not exist.
unfoldable pub after_fork_child : AgentThread → AgentThread
after_fork_child s =
    if s.ref == 0
    then record s { owner = nobody }
    else record s { word = blocked; worker = top; owner = nobody }

-- The steps of one process. `queued` is a request of a tracer; `cancelled` is a cancellation, or what
-- the application runs of a handle with polling. Requests and cancellations return with
-- `side_statedump_lock` held (Statedump.Requests), which stops whatever takes it afterwards; here the
-- others go on, so that there are more runs than those of the code.
pub data Step (s : AgentThread) : AgentThread → Type 0 where
  agent : Step s (statedump_agent_func s)
  wakes : Step s (record s { worker = wake_worker s.worker })
  queued : (i key : ℕ) → (s.handles i).live ≡ true → Step s (queue_pending s i key)
  cancelled :
      (i key : ℕ)
      → (s.handles i).live ≡ true
      → Step s (set_request s i (unqueue_statedump_pending (s.handles i).request key))
  registered :
      (cb name : ℕ) (mode : StatedumpMode)
      → (is_agent mode ≡ true → s.owner ≡ nobody)
      → Step s (notification_register cb name mode s)
  unregistered :
      (i : ℕ)
      → (s.handles i).live ≡ true
      → (is_agent (s.handles i).request.mode ≡ true → s.owner ≡ nobody)
      → Step s (notification_unregister i s)
  joined : s.owner ≡ joining → s.worker ≡ gone → Step s (thread_join s)
  pauses : s.owner ≡ nobody → Step s (before_fork s)
  acknowledged : s.owner ≡ pausing → s.word.pause_ack ≡ true → Step s (record s { owner = forking })
  forked : s.owner ≡ forking → Step s (after_fork_parent s)

-- Before the first registration.
abbrev pub no_handle : Handle
no_handle = record {
  live = false;
  request = record { notification_queue = []; cb = 0; name = 0; mode = polling };
}

abbrev pub initial : AgentThread
initial = record {
  ref = 0;
  word = blocked;
  worker = absent;
  owner = nobody;
  next_handle = 0;
  handles = λ i. no_handle;
  acts = [];
}

pub data Reach (s : AgentThread) : AgentThread → Type 0 where
  here : Reach s s
  next : {t u : AgentThread} → Reach s t → Step t u → Reach s u

-- The runs all of whose steps pass a test.
pub data Along (p : (t u : AgentThread) → Step t u → Bool) (s : AgentThread)
    : AgentThread → Type 0 where
  start : Along p s s
  go : {t u : AgentThread} → Along p s t → (step : Step t u) → p t u step ≡ true → Along p s u

-- What `statedump_agent_func` does not do.
unfoldable pub by_others : (t u : AgentThread) → Step t u → Bool
by_others t _ agent = false
by_others t u _ = true

-- What is not a request or a cancellation, after which `side_statedump_lock` would stay locked.
unfoldable pub unlocks : (t u : AgentThread) → Step t u → Bool
unlocks t _ (queued i key live) = false
unlocks t _ (cancelled i key live) = false
unlocks t u _ = true

pub Along-Reach :
    (p : (t u : AgentThread) → Step t u → Bool) {s t : AgentThread} → Along p s t → Reach s t
Along-Reach p start = here
Along-Reach p (go r step e) = next (Along-Reach p r) step
