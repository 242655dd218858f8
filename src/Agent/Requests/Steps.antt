-- ===== src/Agent/Requests/Steps.antt =====
-- The steps of the agent thread of src/side.c, and of those that it serves, keep every request
-- attended to.
use mathlib.Core.Path.{subst}
use libside.Common.{
  ℕ, suc, ◌+◌, ◌<◌, ◌≡◌, ◌⊎◌, ◌∙◌, inl, inr, refl, sym, ap, true, false, ◌==◌, ltb, leb, [], arith,
  Bool-cases,
}
use libside.Rcu.Counting.{total, total-spared}
use libside.Callback.{key_match_all}
use libside.Statedump.{StatedumpMode, polling, agent_thread, is_agent, with_queue}
use libside.Agent.{
  Word, Worker, top, asleep, paused, gone, decided, visiting, dumping, Handle, AgentThread,
  set_request, load_state, decide, take_pending, agent_at, thread_get, new_handle, add_handle,
  queue_pending, notification_register,
}
use libside.Agent.Pause.{either}
use libside.Agent.Requests.{
  weight, ahead, Inv, live_below, none_live, set_request-Inv, worker-Inv, queue_pending-Inv,
}

-- The agent thread moves on from where it is not in its walk.
pub off_walk :
    (s : AgentThread) (k : Worker) {n : ℕ}
    → ((i : ℕ) → ahead s.worker i ≡ false)
    → (k ≡ asleep → s.word.handle_request ≡ false)
    → Inv s n
    → Inv (record s { worker = k }) n
off_walk s k off sleep v =
    worker-Inv s k sleep (λ i l e. let e' = off i in absurd (bad (sym e ∙ e'))) v
  where
    bad : true ≡ false → ⊥
    bad e = cc

take_pending-Inv :
    (s : AgentThread) (j : ℕ) {n : ℕ}
    → s.worker ≡ visiting j
    → j < s.next_handle
    → Inv s n
    → Inv (take_pending j s) n
take_pending-Inv s j k lt v =
    worker-Inv t (dumping j (s.handles j).request.notification_queue) (λ e. cc) moves
      (set_request-Inv s j (with_queue (s.handles j).request []) refl lt (λ _. inl refl) v)
  where
    t : AgentThread
    t = set_request s j (with_queue (s.handles j).request [])

    moves :
        (i : ℕ)
        → (t.handles i).live ≡ true
        → ahead s.worker i ≡ true
        → ((t.handles i).request.notification_queue ≡ []) ⊎ (ltb j i ≡ true)
    moves i l e = elim (Bool-cases (i == j)) [
      | inl h ↦ inl (rw h refl)
      | inr h ↦ let e' : leb j i ≡ true = ap (λ w. ahead w i) (sym k) ∙ e in inr (ground arith)
    ]

decide-Inv :
    (w : Word) (s : AgentThread) {n : ℕ} → s.worker ≡ decided w → Inv s n → Inv (decide w s) n
decide-Inv w s k v = elim (Bool-cases w.exit) [
  | inl e ↦ rw e (off_walk s gone (λ i. ap (λ w. ahead w i) k) (λ e. cc) v)
  | inr e ↦ elim (Bool-cases w.pause) [
    | inl p ↦
        rw (e, p)
          (let v' = off_walk s paused (λ i. ap (λ w. ahead w i) k) (λ e. cc) v in
            record {
              fresh = v'.fresh;
              counted = v'.counted;
              attended = v'.attended;
              sleeping = v'.sleeping;
            })
    | inr p ↦
        rw (e, p)
          (record {
            fresh = v.fresh;
            counted = v.counted;
            attended = λ i l m. inr (inr (ground arith));
            sleeping = λ e. cc;
          })
  ]
]

pub agent_at-Inv :
    (k : Worker) (s : AgentThread) {n : ℕ} → s.worker ≡ k → Inv s n → Inv (agent_at k s) n
agent_at-Inv top s k v =
    off_walk s (load_state s.word) (λ i. ap (λ w. ahead w i) k) (sleeps s.word) v
  where
    sleeps : (w : Word) → load_state w ≡ asleep → w.handle_request ≡ false
    sleeps w e = elim (Bool-cases w.handle_request) [
      | inr h ↦ h
      | inl h ↦ let e' : decided (record w { handle_request = true }) ≡ asleep = rw h at e in cc
    ]
agent_at-Inv paused s {n} k v =
    either (λ t. Inv t n) s.word.pause s (record s { worker = top }) (λ _. v)
      (λ _. off_walk s top (λ i. ap (λ w. ahead w i) k) (λ e. cc) v)
agent_at-Inv (decided w) s k v = decide-Inv w s k v
agent_at-Inv (visiting j) s k v = elim (Bool-cases (ltb j s.next_handle)) [
  | inl h ↦ rw h (take_pending-Inv s j k (ground arith) v)
  | inr h ↦ rw h (
      worker-Inv s top (λ e. cc)
        (λ i l e.
          let e' : leb j i ≡ true = ap (λ w. ahead w i) (sym k) ∙ e in
          let lt = live_below v i l in absurd (ground arith))
        v)
]
agent_at-Inv (dumping j q) s k v =
    let v' =
      worker-Inv s (visiting (suc j)) (λ e. cc)
        (λ i l e. let e' : ltb j i ≡ true = ap (λ w. ahead w i) (sym k) ∙ e in inr (ground arith))
        v in
    record {
      fresh = v'.fresh;
      counted = v'.counted;
      attended = v'.attended;
      sleeping = v'.sleeping;
    }
agent_at-Inv _ s k v = v

-- The insertion of a handle.
add_handle-Inv :
    (s : AgentThread) (cb name : ℕ) (mode : StatedumpMode) {n : ℕ}
    → Inv s n
    → Inv (add_handle (new_handle cb name mode) s) (n + weight (new_handle cb name mode))
unfolding total
add_handle-Inv s cb name mode {n} v = record {
  fresh = λ i le.
      let e : (i == s.next_handle) ≡ false = ground arith in rw e (v.fresh i (omega (arith, le)));
  counted =
      let h : Handle = new_handle cb name mode in
      let e = total-spared weight s.next_handle s.handles s.next_handle h (omega arith) in
      let r : (s.next_handle == s.next_handle) ≡ true = ground arith in
      let c = v.counted in rw (r, e, c) refl;
  attended = λ i l m. elim (Bool-cases (i == s.next_handle)) [
    | inl e ↦ inl (rw e refl)
    | inr e ↦
        let l' : (s.handles i).live ≡ true = rw e at l in
        let m' : is_agent (s.handles i).request.mode ≡ true = rw e at m in rw e (v.attended i l' m')
  ];
  sleeping = v.sleeping;
}

thread_get-Inv : (s : AgentThread) → Inv s s.ref → Inv (thread_get s) s.ref
thread_get-Inv s v = elim (Bool-cases (s.ref == 0)) [
  | inl z ↦
      let n : s.ref ≡ 0 = ground arith in
      rw z (record {
        fresh = v.fresh;
        counted = v.counted;
        attended = λ i l m. let e = none_live v n i l in cc;
        sleeping = λ e. cc;
      })
  | inr z ↦ rw z (record {
    fresh = v.fresh;
    counted = v.counted;
    attended = v.attended;
    sleeping = v.sleeping;
  })
]

thread_get-ref : (s : AgentThread) → (thread_get s).ref ≡ s.ref + 1
thread_get-ref s = elim (Bool-cases (s.ref == 0)) [
  | inl z ↦ rw z (ground arith)
  | inr z ↦ rw z refl
]

pub queue_pending-ref : (s : AgentThread) (i key : ℕ) → (queue_pending s i key).ref ≡ s.ref
queue_pending-ref s i key = elim (Bool-cases (is_agent (s.handles i).request.mode)) [
  | inl e ↦ rw e refl
  | inr e ↦ rw e refl
]

pub notification_register-Inv :
    (cb name : ℕ) (mode : StatedumpMode) (s : AgentThread)
    → Inv s s.ref
    → Inv (notification_register cb name mode s) (notification_register cb name mode s).ref
unfolding notification_register
notification_register-Inv cb name agent_thread s v =
    let t : AgentThread = add_handle (new_handle cb name agent_thread) (thread_get s) in
    let e : (queue_pending t (thread_get s).next_handle key_match_all).ref ≡ s.ref + 1 =
      queue_pending-ref t (thread_get s).next_handle key_match_all ∙ thread_get-ref s in
    subst (Inv (queue_pending t (thread_get s).next_handle key_match_all)) (sym e) (
      queue_pending-Inv t (thread_get s).next_handle key_match_all (omega arith)
        (add_handle-Inv (thread_get s) cb name agent_thread (thread_get-Inv s v)))
notification_register-Inv cb name polling s v =
    let t : AgentThread = add_handle (new_handle cb name polling) s in
    let e : (queue_pending t s.next_handle key_match_all).ref ≡ s.ref + 0 =
      queue_pending-ref t s.next_handle key_match_all ∙ omega arith in
    subst (Inv (queue_pending t s.next_handle key_match_all)) (sym e) (
      queue_pending-Inv t s.next_handle key_match_all (omega arith)
        (add_handle-Inv s cb name polling v))
