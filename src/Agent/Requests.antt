-- ===== src/Agent/Requests.antt =====
-- The agent thread of src/side.c sleeps only when no request for a state dump is pending.
pub mod Steps
pub mod Pending
pub mod Served
use libside.Common.{
  ℕ, zero, suc, ◌+◌, ◌-◌, ◌≤◌, ◌<◌, ◌≡◌, ◌≢◌, ◌⊎◌, ◌∙◌, inl, inr, refl, sym, ap, Bool, true, false,
  not, ◌&&◌, ◌||◌, ◌==◌, ltb, leb, if◌then◌else◌, List, [], ◌∷◌, ◌++◌, arith, Bool-cases, update,
}
use libside.Rcu.Counting.{total, total-update, total-spared, total-ge}
use libside.Callback.{key_match_all}
use libside.Statedump.{Request, StatedumpMode, polling, agent_thread, is_agent, with_queue}
use libside.Agent.{
  Word, blocked, is_blocked, Worker, absent, top, asleep, paused, gone, decided, visiting, dumping,
  Owner, nobody, pausing, forking, joining, Handle, AgentThread, wake_worker, set_request,
  queue_pending, agent_at, statedump_agent_func,
}
use libside.Agent.Pause.{Sound}

abbrev pub weight : Handle → ℕ
weight h = if h.live && is_agent h.request.mode then 1 else 0

-- The agent thread still comes to the handle `i` in its walk over the list.
abbrev pub ahead : Worker → ℕ → Bool
ahead (visiting j) i = leb j i
ahead (dumping j q) i = ltb j i
ahead _ i = false

-- The requests of the handle `i` will be seen to.
abbrev pub Attended : AgentThread → ℕ → Type 0
Attended s i =
    ((s.handles i).request.notification_queue ≡ [])
    ⊎ (s.word.handle_request ≡ true)
    ⊎ (ahead s.worker i ≡ true)

-- `n` handles use the agent thread.
pub record Inv (s : AgentThread) (n : ℕ) : Type 0 where
  pub fresh : (i : ℕ) → s.next_handle ≤ i → (s.handles i).live ≡ false
  pub counted : total weight s.next_handle s.handles ≡ n
  pub attended :
      (i : ℕ)
      → (s.handles i).live ≡ true
      → is_agent (s.handles i).request.mode ≡ true
      → Attended s i
  pub sleeping : s.worker ≡ asleep → s.word.handle_request ≡ false

-- A live handle has a number below the next one.
pub live_below :
    {s : AgentThread} {n : ℕ} → Inv s n → (i : ℕ) → (s.handles i).live ≡ true → i < s.next_handle
live_below {s} v i l = elim (Bool-cases (ltb i s.next_handle)) [
  | inl h ↦ ground arith
  | inr h ↦ let e : (s.handles i).live ≡ false = v.fresh i (ground arith) in cc
]

-- Without a reference there is no handle that uses the agent thread.
pub none_live :
    {s : AgentThread} {n : ℕ}
    → Inv s n
    → n ≡ 0
    → (i : ℕ) → (s.handles i).live ≡ true
    → is_agent (s.handles i).request.mode ≡ false
none_live {s} v none i l = elim (Bool-cases (is_agent (s.handles i).request.mode)) [
  | inr h ↦ h
  | inl h ↦
      let one : weight (s.handles i) ≡ 1 = rw (l, h) refl in
      let le = total-ge weight s.next_handle s.handles i (live_below v i l) in
      let z = v.counted in absurd (omega (arith, one, le, z, none))
]

-- A change of a handle's request that keeps its mode.
set_request-counted :
    (s : AgentThread) (i : ℕ) (r : Request)
    → is_agent r.mode ≡ is_agent (s.handles i).request.mode
    → i < s.next_handle
    → total weight s.next_handle (set_request s i r).handles ≡ total weight s.next_handle s.handles
set_request-counted s i r same lt =
    let h : Handle = record { live = (s.handles i).live; request = r } in
    let e : weight h ≡ weight (s.handles i) =
      ap (λ b. if (s.handles i).live && b then 1 else 0) same in
    let u = total-update weight s.next_handle s.handles i h lt in omega (arith, e, u)

pub set_request-live :
    (s : AgentThread) (i : ℕ) (r : Request) (k : ℕ)
    → ((set_request s i r).handles k).live ≡ (s.handles k).live
set_request-live s i r k = elim (Bool-cases (k == i)) [
  | inl e ↦ let e' : k ≡ i = ground arith in rw (e, e') refl
  | inr e ↦ rw e refl
]

pub set_request-Inv :
    (s : AgentThread) (i : ℕ) (r : Request) {n : ℕ}
    → is_agent r.mode ≡ is_agent (s.handles i).request.mode
    → i < s.next_handle
    → (is_agent r.mode ≡ true
        → (r.notification_queue ≡ []) ⊎ (s.word.handle_request ≡ true) ⊎ (ahead s.worker i ≡ true))
    → Inv s n
    → Inv (set_request s i r) n
set_request-Inv s i r same lt att v = record {
  fresh = λ k le. set_request-live s i r k ∙ v.fresh k le;
  counted = set_request-counted s i r same lt ∙ v.counted;
  attended = λ k l m. elim (Bool-cases (k == i)) [
    | inl e ↦
        let e' : k ≡ i = ground arith in
        let m' : is_agent r.mode ≡ true = rw e at m in rw (e, e') (att m')
    | inr e ↦
        let l' : (s.handles k).live ≡ true = rw e at l in
        let m' : is_agent (s.handles k).request.mode ≡ true = rw e at m in rw e (v.attended k l' m')
  ];
  sleeping = v.sleeping;
}

-- The agent thread moves on.
pub worker-Inv :
    (s : AgentThread) (k : Worker) {n : ℕ}
    → (k ≡ asleep → s.word.handle_request ≡ false)
    → ((i : ℕ)
        → (s.handles i).live ≡ true
        → ahead s.worker i ≡ true
        → ((s.handles i).request.notification_queue ≡ []) ⊎ (ahead k i ≡ true))
    → Inv s n
    → Inv (record s { worker = k }) n
worker-Inv s k sleep move v = record {
  fresh = v.fresh;
  counted = v.counted;
  attended = λ i l m. elim (v.attended i l m) [
    | inl e ↦ inl e
    | inr (inl e) ↦ inr (inl e)
    | inr (inr e) ↦ elim (move i l e) [ inl e' ↦ inl e' | inr e' ↦ inr (inr e') ]
  ];
  sleeping = sleep;
}

wake_worker-ahead : (k : Worker) (i : ℕ) → ahead (wake_worker k) i ≡ ahead k i
wake_worker-ahead asleep i = refl
wake_worker-ahead _ i = refl

pub wake_worker-awake : (k : Worker) → wake_worker k ≢ asleep
wake_worker-awake asleep e = cc
wake_worker-awake _ e = cc

pub wake_worker-Inv :
    (s : AgentThread) {n : ℕ} → Inv s n → Inv (record s { worker = wake_worker s.worker }) n
wake_worker-Inv s v =
    worker-Inv s (wake_worker s.worker) (λ e. absurd (wake_worker-awake s.worker e))
      (λ i l e. inr (wake_worker-ahead s.worker i ∙ e)) v

-- A request that is noted attends to all handles.
handle_request-Inv :
    (s : AgentThread) {n : ℕ}
    → Inv s n
    → Inv
        (record s { word = record s.word { handle_request = true }; worker = wake_worker s.worker })
        n
handle_request-Inv s v = record {
  fresh = v.fresh;
  counted = v.counted;
  attended = λ i l m. inr (inl refl);
  sleeping = λ e. absurd (wake_worker-awake s.worker e);
}

pub queue_pending-Inv :
    (s : AgentThread) (i key : ℕ) {n : ℕ}
    → i < s.next_handle
    → Inv s n
    → Inv (queue_pending s i key) n
queue_pending-Inv s i key lt v = elim (Bool-cases (is_agent (s.handles i).request.mode)) [
  | inl e ↦ rw e (
      set_request-Inv
        (record s { word = record s.word { handle_request = true }; worker = wake_worker s.worker })
        i (with_queue (s.handles i).request ((s.handles i).request.notification_queue ++ key ∷ []))
        refl lt (λ _. inr (inl refl)) (handle_request-Inv s v))
  | inr e ↦ rw e (
      set_request-Inv s i
        (with_queue (s.handles i).request ((s.handles i).request.notification_queue ++ key ∷ []))
        refl lt (λ e'. cc) v)
]
