-- ===== src/Agent/Fork.antt =====
-- What two calls of fork() in a row do to the agent thread of src/side.c.
use mathlib.Core.Path.{subst}
use libside.Common.{
  ℕ, ◌≡◌, ◌≢◌, ◌⊎◌, refl, sym, ap, ◌∙◌, inl, inr, true, false, ◌==◌, if◌then◌else◌, arith,
  Bool-cases,
}
use libside.Callback.{key_match_all}
use libside.Statedump.{polling, agent_thread, is_agent}
use libside.Agent.{
  Worker, Handle, wake_worker, nobody, joining, thread_get, thread_put, Along, start, go, by_others,
  add_handle, new_handle, queue_pending, notification_register, notification_unregister,
  before_fork, after_fork_parent, Step, agent, wakes, queued, cancelled, registered, unregistered,
  joined, pauses, acknowledged, forked, initial, Reach, here, next, paused, top, agent_at, pausing,
  forking, AgentThread, statedump_agent_func,
}
use libside.Agent.Pause.{owned}
use libside.Agent.Pause.Steps.{Reach-Sound}

-- The agent thread is in the loop of a pause, and a thread that pauses it waits for an answer.
record Hung (s : AgentThread) : Type 0 where
  waits : s.owner ≡ pausing
  rests : s.worker ≡ paused
  asked : s.word.pause ≡ true
  unanswered : s.word.pause_ack ≡ false

queue_pending-Hung : (s : AgentThread) (i key : ℕ) → Hung s → Hung (queue_pending s i key)
queue_pending-Hung s i key h = elim (Bool-cases (is_agent (s.handles i).request.mode)) [
  | inl e ↦ rw e (record {
    waits = h.waits;
    rests = rw h.rests refl;
    asked = h.asked;
    unanswered = h.unanswered;
  })
  | inr e ↦
      rw e (record { waits = h.waits; rests = h.rests; asked = h.asked; unanswered = h.unanswered })
]

-- The loop of the pause goes on.
paused_step :
    (s : AgentThread) → s.worker ≡ paused → s.word.pause ≡ true → statedump_agent_func s ≡ s
unfolding statedump_agent_func
paused_step s k p =
    ap (λ w. agent_at w s) k ∙ ap (λ b. if b then s else record s { worker = top }) p

Step-Hung : {s t : AgentThread} → Step s t → Hung s → Hung t
unfolding notification_register notification_unregister
Step-Hung {s} agent h = subst Hung (sym (paused_step s h.rests h.asked)) h
Step-Hung {s} wakes h = record {
  waits = h.waits;
  rests = rw h.rests refl;
  asked = h.asked;
  unanswered = h.unanswered;
}
Step-Hung {s} (queued i key live) h = queue_pending-Hung s i key h
Step-Hung (cancelled i key live) h = record {
  waits = h.waits;
  rests = h.rests;
  asked = h.asked;
  unanswered = h.unanswered;
}
Step-Hung {s} (registered cb name polling o) h =
    queue_pending-Hung (add_handle (new_handle cb name polling) s) s.next_handle key_match_all
      (record { waits = h.waits; rests = h.rests; asked = h.asked; unanswered = h.unanswered })
Step-Hung (registered cb name agent_thread o) h = let e = o refl in let e' = h.waits in cc
Step-Hung {s} (unregistered i live o) h = elim (Bool-cases (is_agent (s.handles i).request.mode)) [
  | inl e ↦ let e = o e in let e' = h.waits in cc
  | inr e ↦
      rw e (record { waits = h.waits; rests = h.rests; asked = h.asked; unanswered = h.unanswered })
]
Step-Hung (joined o ended) h = let e' = h.waits in cc
Step-Hung (pauses o) h = let e' = h.waits in cc
Step-Hung (acknowledged o a) h = let e' = h.unanswered in cc
Step-Hung (forked o) h = let e' = h.waits in cc

Reach-Hung : {s t : AgentThread} → Reach s t → Hung s → Hung t
Reach-Hung here h = h
Reach-Hung (next r step) h = Step-Hung step (Reach-Hung r h)

before_fork-Hung :
    (s : AgentThread)
    → s.ref ≢ 0
    → s.worker ≡ paused
    → s.word.pause_ack ≡ false
    → Hung (before_fork s)
unfolding before_fork
before_fork-Hung s n k a =
    let z : (s.ref == 0) ≡ false = ground arith in
    rw z (record { waits = refl; rests = rw k refl; asked = refl; unanswered = a })

-- Between two forks: the agent thread has not yet left the loop of the first pause, and its lock is
-- free, or owned by a thread that waits for the agent thread's answer, or for its end.
record Lingers (s : AgentThread) : Type 0 where
  rests : s.worker ≡ paused
  unanswered : s.word.pause_ack ≡ false
  owned_by : (s.owner ≡ nobody) × (s.ref ≢ 0) ⊎ Hung s ⊎ (s.owner ≡ joining)

wake_worker-paused : (k : Worker) → k ≡ paused → wake_worker k ≡ paused
wake_worker-paused k e = rw e refl

queue_pending-Lingers : (s : AgentThread) (i key : ℕ) → Lingers s → Lingers (queue_pending s i key)
queue_pending-Lingers s i key h = record {
  rests = elim (Bool-cases (is_agent (s.handles i).request.mode)) [
    | inl e ↦ rw e (wake_worker-paused s.worker h.rests)
    | inr e ↦ rw e h.rests
  ];
  unanswered = elim (Bool-cases (is_agent (s.handles i).request.mode)) [
    | inl e ↦ rw e h.unanswered
    | inr e ↦ rw e h.unanswered
  ];
  owned_by = elim h.owned_by [
    | inl (o, n) ↦ elim (Bool-cases (is_agent (s.handles i).request.mode)) [
      | inl e ↦ rw e (inl (o, n))
      | inr e ↦ rw e (inl (o, n))
    ]
    | inr (inl hung) ↦ inr (inl (queue_pending-Hung s i key hung))
    | inr (inr o) ↦ elim (Bool-cases (is_agent (s.handles i).request.mode)) [
      | inl e ↦ rw e (inr (inr o))
      | inr e ↦ rw e (inr (inr o))
    ]
  ];
}

Hung-Lingers : (s : AgentThread) → Hung s → Lingers s
Hung-Lingers s h = record { rests = h.rests; unanswered = h.unanswered; owned_by = inr (inl h) }

-- A registration while the lock is free.
thread_get-Lingers : (s : AgentThread) → s.owner ≡ nobody → Lingers s → Lingers (thread_get s)
thread_get-Lingers s o h = elim h.owned_by [
  | inl (_, n) ↦
      let z : (s.ref == 0) ≡ false = ground arith in
      rw z (record {
        rests = h.rests;
        unanswered = h.unanswered;
        owned_by = inl (o, λ e. omega (arith, e));
      })
  | inr (inl hung) ↦ let e = hung.waits in cc
  | inr (inr e) ↦ cc
]

thread_put-Lingers : (s : AgentThread) → s.owner ≡ nobody → Lingers s → Lingers (thread_put s)
thread_put-Lingers s o h = elim h.owned_by [
  | inl (_, n) ↦ elim (Bool-cases (s.ref == 1)) [
    | inl e ↦ rw e (record {
      rests = wake_worker-paused s.worker h.rests;
      unanswered = h.unanswered;
      owned_by = inr (inr refl);
    })
    | inr e ↦ rw e (record {
      rests = h.rests;
      unanswered = h.unanswered;
      owned_by = inl (o, λ e'. ground (arith, e', n, e));
    })
  ]
  | inr (inl hung) ↦ let e = hung.waits in cc
  | inr (inr e) ↦ cc
]

-- What does not touch the agent thread.
aside-Lingers :
    (s : AgentThread) (handles : ℕ → Handle) (next_handle : ℕ)
    → Lingers s
    → Lingers (record s { handles = handles; next_handle = next_handle })
aside-Lingers s handles next_handle h = record {
  rests = h.rests;
  unanswered = h.unanswered;
  owned_by = elim h.owned_by [
    | inl x ↦ inl x
    | inr (inl g) ↦ inr (
        inl
          (record { waits = g.waits; rests = g.rests; asked = g.asked; unanswered = g.unanswered }))
    | inr (inr x) ↦ inr (inr x)
  ];
}

Step-Lingers :
    {s t : AgentThread} → (step : Step s t) → by_others s t step ≡ true → Lingers s → Lingers t
unfolding by_others notification_register notification_unregister
Step-Lingers agent b h = cc
Step-Lingers {s} wakes b h = elim h.owned_by [
  | inl x ↦ record {
    rests = wake_worker-paused s.worker h.rests;
    unanswered = h.unanswered;
    owned_by = inl x;
  }
  | inr (inl g) ↦ Hung-Lingers _ (Step-Hung wakes g)
  | inr (inr x) ↦ record {
    rests = wake_worker-paused s.worker h.rests;
    unanswered = h.unanswered;
    owned_by = inr (inr x);
  }
]
Step-Lingers {s} (queued i key live) b h = queue_pending-Lingers s i key h
Step-Lingers {s} (cancelled i key live) b h = aside-Lingers s _ s.next_handle h
Step-Lingers {s} (registered cb name polling o) b h =
    queue_pending-Lingers (add_handle (new_handle cb name polling) s) s.next_handle key_match_all
      (aside-Lingers s _ _ h)
Step-Lingers {s} (registered cb name agent_thread o) b h =
    queue_pending-Lingers (add_handle (new_handle cb name agent_thread) (thread_get s))
      (thread_get s).next_handle key_match_all
      (aside-Lingers (thread_get s) _ _ (thread_get-Lingers s (o refl) h))
Step-Lingers {s} (unregistered i live o) b h =
    elim (Bool-cases (is_agent (s.handles i).request.mode)) [
      | inl e ↦ rw e (thread_put-Lingers _ (o e) (aside-Lingers s _ s.next_handle h))
      | inr e ↦ rw e (aside-Lingers s _ s.next_handle h)
    ]
Step-Lingers (joined o ended) b h = let e = h.rests in cc
Step-Lingers {s} (pauses o) b h = elim h.owned_by [
  | inl (_, n) ↦ Hung-Lingers _ (before_fork-Hung s n h.rests h.unanswered)
  | inr (inl hung) ↦ let e = hung.waits in cc
  | inr (inr e) ↦ cc
]
Step-Lingers (acknowledged o a) b h = let e = h.unanswered in cc
Step-Lingers (forked o) b h = elim h.owned_by [
  | inl (e, _) ↦ cc
  | inr (inl hung) ↦ let e = hung.waits in cc
  | inr (inr e) ↦ cc
]

Along-Lingers : {s t : AgentThread} → Along by_others s t → Lingers s → Lingers t
Along-Lingers start h = h
Along-Lingers (go r step b) h = Step-Lingers step b (Along-Lingers r h)

after_fork_parent-Lingers :
    (s : AgentThread) → s.ref ≢ 0 → s.worker ≡ paused → Lingers (after_fork_parent s)
unfolding after_fork_parent
after_fork_parent-Lingers s n k =
    let z : (s.ref == 0) ≡ false = ground arith in
    rw z (record { rests = k; unanswered = refl; owned_by = inl (refl, n) })

-- A process with an agent thread, in a fork at any state that the library can reach: let the parent go
-- on from the fork, and let its other threads take any steps (requests, registrations and so on) as
-- long as the agent thread takes none, so that it has not seen the end of the pause. If a thread
-- forks again then, it never gets past `side_before_fork`: whatever steps are taken from there, those
-- of the agent thread included, it goes on waiting for an answer.
pub before_fork-after_fork_parent :
    {s t u : AgentThread}
    → Reach initial s
    → s.owner ≡ forking
    → s.ref ≢ 0
    → Along by_others (after_fork_parent s) t
    → t.owner ≡ nobody
    → Reach (before_fork t) u
    → u.owner ≡ pausing
before_fork-after_fork_parent {s} {t} r o n between free more =
    elim (owned s forking o (Reach-Sound r)) [
      | inl (z, _, _, _, _) ↦ absurd (n z)
      | inr (_, k, _, _, _) ↦
          let h : Lingers t = Along-Lingers between (after_fork_parent-Lingers s n k) in
          elim h.owned_by [
            | inl (_, m) ↦ (Reach-Hung more (before_fork-Hung t m h.rests h.unanswered)).waits
            | inr (inl hung) ↦ let e = hung.waits in cc
            | inr (inr e) ↦ cc
          ]
    ]
