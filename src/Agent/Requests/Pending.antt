-- ===== src/Agent/Requests/Pending.antt =====
-- No request for a state dump is lost on the agent thread of src/side.c.
use mathlib.Core.Path.{subst}
use libside.Common.{
  ℕ, ◌-◌, ◌≡◌, ◌∙◌, inl, inr, refl, sym, ap, true, false, ◌==◌, ltb, [], arith, Bool-cases, update,
}
use libside.Rcu.Counting.{total, total-update}
use libside.Callback.{key_match_all}
use libside.Statedump.{is_agent, unqueue, unqueue_statedump_pending}
use libside.Agent.{
  Worker, top, asleep, paused, decided, visiting, joining, Handle, AgentThread, set_request,
  queue_pending, agent_at, statedump_agent_func, thread_put, notification_unregister, before_fork,
  after_fork_parent, Step, agent, wakes, queued, cancelled, registered, unregistered, joined,
  pauses, acknowledged, forked, initial, Reach, here, next,
}
use libside.Agent.Pause.{either, Sound, owned}
use libside.Agent.Pause.Steps.{Reach-Sound}
use libside.Agent.Requests.{
  weight, ahead, Inv, live_below, none_live, set_request-Inv, wake_worker-Inv, queue_pending-Inv,
}
use libside.Agent.Requests.Steps.{agent_at-Inv, queue_pending-ref, notification_register-Inv}

agent_at-ref : (k : Worker) (s : AgentThread) → (agent_at k s).ref ≡ s.ref
agent_at-ref paused s =
    either (λ t. t.ref ≡ s.ref) s.word.pause s (record s { worker = top }) (λ _. refl) (λ _. refl)
agent_at-ref (decided w) s = elim (Bool-cases w.exit) [
  | inl h ↦ rw h refl
  | inr h ↦ elim (Bool-cases w.pause) [ inl h' ↦ rw (h, h') refl | inr h' ↦ rw (h, h') refl ]
]
agent_at-ref (visiting j) s = elim (Bool-cases (ltb j s.next_handle)) [
  | inl h ↦ rw h refl
  | inr h ↦ rw h refl
]
agent_at-ref _ s = refl

-- The list without the handle `i`.
abbrev without : AgentThread → ℕ → AgentThread
without s i = record s {
  handles = update s.handles i (record {
    live = false;
    request = unqueue_statedump_pending (s.handles i).request key_match_all;
  });
}

without-Inv :
    (s : AgentThread) (i : ℕ) {n : ℕ}
    → (s.handles i).live ≡ true
    → Inv s n
    → Inv (without s i) (n - weight (s.handles i))
without-Inv s i {n} live v = record {
  fresh = λ k le. elim (Bool-cases (k == i)) [ inl e ↦ rw e refl | inr e ↦ rw e (v.fresh k le) ];
  counted =
      let h : Handle = record {
        live = false;
        request = unqueue_statedump_pending (s.handles i).request key_match_all;
      } in
      let u = total-update weight s.next_handle s.handles i h (live_below v i live) in
      let c = v.counted in omega (arith, u, c);
  attended = λ k l m. elim (Bool-cases (k == i)) [
    | inl e ↦ let l' : false ≡ true = rw e at l in cc
    | inr e ↦
        let l' : (s.handles k).live ≡ true = rw e at l in
        let m' : is_agent (s.handles k).request.mode ≡ true = rw e at m in rw e (v.attended k l' m')
  ];
  sleeping = v.sleeping;
}

thread_put-Inv : (s : AgentThread) → Inv s (s.ref - 1) → Inv (thread_put s) (thread_put s).ref
thread_put-Inv s v = elim (Bool-cases (s.ref == 1)) [
  | inl z ↦
      let n : s.ref - 1 ≡ 0 = ground arith in
      let v' = wake_worker-Inv s (subst (Inv s) n v) in
      rw z (record {
        fresh = v'.fresh;
        counted = v'.counted;
        attended = v'.attended;
        sleeping = v'.sleeping;
      })
  | inr z ↦ rw z (record {
    fresh = v.fresh;
    counted = v.counted;
    attended = v.attended;
    sleeping = v.sleeping;
  })
]

notification_unregister-Inv :
    (i : ℕ) (s : AgentThread)
    → (s.handles i).live ≡ true
    → Inv s s.ref
    → Inv (notification_unregister i s) (notification_unregister i s).ref
unfolding notification_unregister
notification_unregister-Inv i s live v = elim (Bool-cases (is_agent (s.handles i).request.mode)) [
  | inl e ↦
      let w : weight (s.handles i) ≡ 1 = rw (live, e) refl in
      rw e (
        thread_put-Inv (without s i)
          (subst (λ k. Inv (without s i) (s.ref - k)) w (without-Inv s i live v)))
  | inr e ↦
      let w : s.ref - weight (s.handles i) ≡ s.ref = rw (live, e) (omega arith) in
      rw e (subst (Inv (without s i)) w (without-Inv s i live v))
]

cancelled-Inv :
    (s : AgentThread) (i key : ℕ) {n : ℕ}
    → (s.handles i).live ≡ true
    → Inv s n
    → Inv (set_request s i (unqueue_statedump_pending (s.handles i).request key)) n
unfolding unqueue
cancelled-Inv s i key live v =
    set_request-Inv s i (unqueue_statedump_pending (s.handles i).request key) refl
      (live_below v i live)
      (λ m. elim (v.attended i live m) [ inl e ↦ inl (rw e refl) | inr e ↦ inr e ]) v

Step-Inv : {s t : AgentThread} → Step s t → Sound s → Inv s s.ref → Inv t t.ref
unfolding statedump_agent_func before_fork after_fork_parent
Step-Inv {s} agent h v =
    subst (Inv (agent_at s.worker s)) (sym (agent_at-ref s.worker s))
      (agent_at-Inv s.worker s refl v)
Step-Inv {s} wakes h v = wake_worker-Inv s v
Step-Inv {s} (queued i key live) h v =
    subst (Inv (queue_pending s i key)) (sym (queue_pending-ref s i key))
      (queue_pending-Inv s i key (live_below v i live) v)
Step-Inv {s} (cancelled i key live) h v = cancelled-Inv s i key live v
Step-Inv {s} (registered cb name mode o) h v = notification_register-Inv cb name mode s v
Step-Inv {s} (unregistered i live o) h v = notification_unregister-Inv i s live v
Step-Inv {s} (joined o ended) h v =
    let n = (owned s joining o h).0 in
    record {
      fresh = v.fresh;
      counted = v.counted;
      attended = λ i l m. let e = none_live v n i l in cc;
      sleeping = λ e. cc;
    }
Step-Inv {s} (pauses o) h v = elim (Bool-cases (s.ref == 0)) [
  | inl z ↦ rw z (record {
    fresh = v.fresh;
    counted = v.counted;
    attended = v.attended;
    sleeping = v.sleeping;
  })
  | inr z ↦
      let v' = wake_worker-Inv s v in
      rw z (record {
        fresh = v'.fresh;
        counted = v'.counted;
        attended = v'.attended;
        sleeping = v'.sleeping;
      })
]
Step-Inv {s} (acknowledged o a) h v = record {
  fresh = v.fresh;
  counted = v.counted;
  attended = v.attended;
  sleeping = v.sleeping;
}
Step-Inv {s} (forked o) h v = elim (Bool-cases (s.ref == 0)) [
  | inl z ↦ rw z (record {
    fresh = v.fresh;
    counted = v.counted;
    attended = v.attended;
    sleeping = v.sleeping;
  })
  | inr z ↦ rw z (record {
    fresh = v.fresh;
    counted = v.counted;
    attended = v.attended;
    sleeping = v.sleeping;
  })
]

Reach-Inv : {s : AgentThread} → Reach initial s → Inv s s.ref
unfolding total
Reach-Inv here = record {
  fresh = λ i le. refl;
  counted = refl;
  attended = λ i l m. cc;
  sleeping = λ e. cc;
}
Reach-Inv (next r step) = Step-Inv step (Reach-Sound r) (Reach-Inv r)

-- The agent thread waits for its condition variable only while no handle that uses it has a
-- notification that is pending: no request is lost, in whatever order requests, cancellations,
-- registrations, forks (on the side of the parent) and the steps of the thread come.
pub asleep_lem :
    {s : AgentThread} (i : ℕ)
    → Reach initial s
    → s.worker ≡ asleep
    → (s.handles i).live ≡ true
    → is_agent (s.handles i).request.mode ≡ true
    → (s.handles i).request.notification_queue ≡ []
asleep_lem {s} i r k live m =
    let v = Reach-Inv r in
    let quiet = v.sleeping k in
    elim (v.attended i live m) [
      | inl e ↦ e
      | inr (inl e) ↦ cc
      | inr (inr e) ↦ let e' : ahead asleep i ≡ true = ap (λ w. ahead w i) (sym k) ∙ e in cc
    ]
