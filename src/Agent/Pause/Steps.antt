-- ===== src/Agent/Pause/Steps.antt =====
-- Every step of the agent thread of src/side.c, and of those that share its state word, keeps to the
-- states of a pause.
use mathlib.Core.Path.{subst}
use libside.Common.{
  ℕ, ◌+◌, ◌-◌, ◌≡◌, ◌≢◌, ◌⊎◌, inl, inr, refl, sym, true, false, ◌==◌, arith, Bool-cases,
}
use libside.Statedump.{StatedumpMode, polling, agent_thread, is_agent}
use libside.Callback.{key_match_all}
use libside.Agent.{
  add_handle, new_handle, thread_get, thread_put, notification_register, notification_unregister,
  before_fork, after_fork_parent, Step, agent, wakes, queued, cancelled, registered, unregistered,
  joined, pauses, acknowledged, forked, initial, Reach, here, next, blocked, Worker, absent, top,
  paused, gone, decided, nobody, pausing, forking, joining, AgentThread, wake_worker,
  statedump_agent_func,
}
use libside.Agent.Pause.{
  Calm, Waits, Ends, Sound, agent_at-At, agent_at-owner, wake_worker-At, queue_pending-Sound, owned,
  sound,
}

Calm-ref : (k : Worker) (n m : ℕ) → n ≢ 0 → m ≢ 0 → Calm k n → Calm k m
Calm-ref absent n m h h' c = absurd (h c)
Calm-ref gone n m h h' c = c
Calm-ref (decided w) n m h h' (e, p, _) = (e, p, h')
Calm-ref _ n m h h' c = h'

Calm-put : (k : Worker) (n : ℕ) → n ≢ 1 → Calm k n → Calm k (n - 1)
Calm-put absent n h c = omega (arith, c)
Calm-put gone n h c = c
Calm-put (decided w) n h (e, p, c) = (e, p, λ z. ground arith)
Calm-put _ n h c = λ z. ground arith

Calm-Ends : (k : Worker) (n : ℕ) → n ≢ 0 → Calm k n → Ends (wake_worker k)
Calm-Ends absent n h c = h c
Calm-Ends (decided w) n h (e, p, _) = p
Calm-Ends _ n h c = tt

Calm-Waits : (k : Worker) (n : ℕ) → n ≢ 0 → Calm k n → Waits false (wake_worker k)
Calm-Waits absent n h c = h c
Calm-Waits gone n h c = c
Calm-Waits (decided w) n h (e, p, _) = (e, refl)
Calm-Waits paused n h c = tt
Calm-Waits _ n h c = refl

Calm-absent : (k : Worker) → Calm k 0 → k ≡ absent
Calm-absent absent c = refl
Calm-absent gone c = absurd c
Calm-absent (decided w) (_, _, c) = absurd (c refl)
Calm-absent _ c = absurd (c refl)

Waits-paused : (k : Worker) → Waits true k → k ≡ paused
Waits-paused paused c = refl
Waits-paused absent c = absurd c
Waits-paused gone c = absurd c
Waits-paused (decided w) (_, c) = cc
Waits-paused _ c = cc

zero_test : (n : ℕ) → (n == 0) ≡ false → n ≢ 0
zero_test n h e = ground arith

thread_get-Sound : (s : AgentThread) → s.owner ≡ nobody → Sound s → Sound (thread_get s)
thread_get-Sound s o h =
    let (e, p, a, c) = owned s nobody o h in
    elim (Bool-cases (s.ref == 0)) [
      | inl z ↦ rw z (
          sound (record s { ref = 1; word = blocked; worker = top }) nobody o
            (refl, refl, refl, λ e. omega (arith, e)))
      | inr z ↦ rw z (
          sound (record s { ref = s.ref + 1 }) nobody o
            (
              e,
              p,
              a,
              Calm-ref s.worker s.ref (s.ref + 1) (zero_test s.ref z) (λ e. omega (arith, e)) c,
            ))
    ]

thread_put-Sound : (s : AgentThread) → s.owner ≡ nobody → Sound s → Sound (thread_put s)
thread_put-Sound s o h =
    let (e, p, a, c) = owned s nobody o h in
    elim (Bool-cases (s.ref == 1)) [
      | inl z ↦ rw z (refl, refl, p, a, Calm-Ends s.worker s.ref (λ e. ground arith) c)
      | inr z ↦ rw z (
          sound (record s { ref = s.ref - 1 }) nobody o
            (e, p, a, Calm-put s.worker s.ref (λ e. ground arith) c))
    ]

notification_register-Sound :
    (cb name : ℕ) (mode : StatedumpMode) (s : AgentThread)
    → (is_agent mode ≡ true → s.owner ≡ nobody)
    → Sound s
    → Sound (notification_register cb name mode s)
unfolding notification_register
notification_register-Sound cb name agent_thread s o h =
    queue_pending-Sound (add_handle (new_handle cb name agent_thread) (thread_get s))
      (thread_get s).next_handle key_match_all (thread_get-Sound s (o refl) h)
notification_register-Sound cb name polling s o h =
    queue_pending-Sound (add_handle (new_handle cb name polling) s) s.next_handle key_match_all h

notification_unregister-Sound :
    (i : ℕ) (s : AgentThread)
    → (is_agent (s.handles i).request.mode ≡ true → s.owner ≡ nobody)
    → Sound s
    → Sound (notification_unregister i s)
unfolding notification_unregister
notification_unregister-Sound i s o h = elim (Bool-cases (is_agent (s.handles i).request.mode)) [
  | inl e ↦ rw e (thread_put-Sound _ (o e) h)
  | inr e ↦ rw e h
]

before_fork-Sound : (s : AgentThread) → s.owner ≡ nobody → Sound s → Sound (before_fork s)
unfolding before_fork
before_fork-Sound s o h =
    let (e, p, a, c) = owned s nobody o h in
    elim (Bool-cases (s.ref == 0)) [
      | inl z ↦
          let n : s.ref ≡ 0 = ground arith in
          rw z (inl (n, Calm-absent s.worker (subst (Calm s.worker) n c), e, p, a))
      | inr z ↦
          let n = zero_test s.ref z in
          rw z (
            e,
            refl,
            n,
            subst (λ b. Waits b (wake_worker s.worker)) (sym a) (Calm-Waits s.worker s.ref n c),
          )
    ]

after_fork_parent-Sound :
    (s : AgentThread) → s.owner ≡ forking → Sound s → Sound (after_fork_parent s)
unfolding after_fork_parent
after_fork_parent-Sound s o h = elim (owned s forking o h) [
  | inl (n, k, e, p, a) ↦ rw n (e, p, a, rw k refl)
  | inr (n, k, e, p, a) ↦
      let z : (s.ref == 0) ≡ false = ground arith in rw z (e, refl, refl, rw k n)
]

pub Step-Sound : {s t : AgentThread} → Step s t → Sound s → Sound t
unfolding statedump_agent_func
Step-Sound {s} agent h =
    sound (statedump_agent_func s) s.owner (agent_at-owner s.worker s)
      (agent_at-At s.owner s.worker s refl h)
Step-Sound {s} wakes h = wake_worker-At s.owner s.worker s.word s.ref h
Step-Sound {s} (queued i key live) h = queue_pending-Sound s i key h
Step-Sound (cancelled i key live) h = h
Step-Sound {s} (registered cb name mode o) h = notification_register-Sound cb name mode s o h
Step-Sound {s} (unregistered i live o) h = notification_unregister-Sound i s o h
Step-Sound {s} (joined o ended) h = (refl, refl, refl, (owned s joining o h).0)
Step-Sound {s} (pauses o) h = before_fork-Sound s o h
Step-Sound {s} (acknowledged o a) h =
    let (e, p, n, c) = owned s pausing o h in
    inr (n, Waits-paused s.worker (subst (λ b. Waits b s.worker) a c), e, p, a)
Step-Sound {s} (forked o) h = after_fork_parent-Sound s o h

pub Reach-Sound : {s : AgentThread} → Reach initial s → Sound s
Reach-Sound here = (refl, refl, refl, refl)
Reach-Sound (next r step) = Step-Sound step (Reach-Sound r)

-- While a process that has used the library forks, its agent thread, if there is one, waits in the
-- loop of a pause: it holds no lock and runs no function of the application. The states are those
-- that any sequence of steps of the agent thread, registrations, requests and forks can reach.
pub forking-paused :
    {s : AgentThread}
    → Reach initial s
    → s.owner ≡ forking
    → (s.worker ≡ absent) ⊎ (s.worker ≡ paused)
forking-paused {s} r o = elim (owned s forking o (Reach-Sound r)) [
  | inl (_, k, _, _, _) ↦ inl k
  | inr (_, k, _, _, _) ↦ inr k
]
