-- ===== src/Agent/Pause.antt =====
-- What `side_before_fork` of src/side.c waits for: the agent thread rests while the process forks.
pub mod Steps
use mathlib.Core.Path.{subst}
use libside.Common.{
  ℕ, ◌+◌, ◌-◌, ◌≡◌, ◌≢◌, ◌∙◌, ◌⊎◌, inl, inr, refl, sym, Bool, true, false, ◌==◌, ltb, if◌then◌else◌,
  arith, Bool-cases,
}
use libside.Statedump.{StatedumpMode, polling, agent_thread, is_agent}
use libside.Callback.{key_match_all}
use libside.Agent.{
  add_handle, new_handle, queue_pending, thread_get, thread_put, notification_register,
  notification_unregister, before_fork, after_fork_parent, Step, agent, wakes, queued, cancelled,
  registered, unregistered, joined, pauses, acknowledged, forked, initial, Reach, here, next, Word,
  blocked, is_blocked, Worker, absent, top, asleep, paused, gone, decided, visiting, dumping, Owner,
  nobody, pausing, forking, joining, AgentThread, wake_worker, agent_at, statedump_agent_func,
}

-- The agent thread while nobody holds its lock.
abbrev pub Calm : Worker → ℕ → Type 0
Calm absent n = n ≡ 0
Calm gone n = ⊥
Calm (decided w) n = (w.exit ≡ false) × (w.pause ≡ false) × (n ≢ 0)
Calm _ n = n ≢ 0

-- While a thread waits for its answer.
abbrev pub Waits : (pause_ack : Bool) → Worker → Type 0
Waits b absent = ⊥
Waits b gone = ⊥
Waits b (decided w) = (w.exit ≡ false) × (b ≡ false)
Waits b paused = Unit {0}
Waits b _ = b ≡ false

-- While a thread waits for its end.
abbrev pub Ends : Worker → Type 0
Ends absent = ⊥
Ends (decided w) = w.pause ≡ false
Ends _ = Unit {0}

abbrev pub At : Owner → Word → Worker → ℕ → Type 0
At nobody w k n = (w.exit ≡ false) × (w.pause ≡ false) × (w.pause_ack ≡ false) × Calm k n
At pausing w k n = (w.exit ≡ false) × (w.pause ≡ true) × (n ≢ 0) × Waits w.pause_ack k
At forking w k n =
    ((n ≡ 0) × (k ≡ absent) × (w.exit ≡ false) × (w.pause ≡ false) × (w.pause_ack ≡ false))
    ⊎ ((n ≢ 0) × (k ≡ paused) × (w.exit ≡ false) × (w.pause ≡ true) × (w.pause_ack ≡ true))
At joining w k n = (n ≡ 0) × (w.exit ≡ true) × (w.pause ≡ false) × (w.pause_ack ≡ false) × Ends k

-- The states that the agent thread and its owner can be in.
abbrev pub Sound : AgentThread → Type 0
Sound s = At s.owner s.word s.worker s.ref

pub either {ℓ} :
    {A : Type 0} (P : A → Type ℓ) (b : Bool) (x y : A)
    → (b ≡ true → P x)
    → (b ≡ false → P y)
    → P (if b then x else y)
either P true x y h k = h refl
either P false x y h k = k refl

pub agent_at-At :
    (o : Owner) (k : Worker) (s : AgentThread)
    → s.worker ≡ k
    → At o s.word k s.ref
    → At o (agent_at k s).word (agent_at k s).worker (agent_at k s).ref
agent_at-At nobody absent s k (e, p, a, n) = (e, p, a, rw k n)
agent_at-At nobody gone s k (_, _, _, h) = absurd h
agent_at-At nobody top s k (e, p, a, n) = (
  e,
  p,
  a,
  either (λ k. Calm k s.ref) (is_blocked s.word) asleep (decided s.word) (λ _. n) (λ _. (e, p, n)),
)
agent_at-At nobody asleep s k (e, p, a, n) = (e, p, a, rw k n)
agent_at-At nobody paused s k (e, p, a, n) = rw p (e, refl, a, n)
agent_at-At nobody (decided w) s k (e, p, a, (e', p', n)) = rw (e', p') (e, p, a, n)
agent_at-At nobody (visiting j) s k (e, p, a, n) = elim (Bool-cases (ltb j s.next_handle)) [
  | inl h ↦ rw h (e, p, a, n)
  | inr h ↦ rw h (e, p, a, n)
]
agent_at-At nobody (dumping j q) s k h = h
agent_at-At pausing absent s k (_, _, _, h) = absurd h
agent_at-At pausing gone s k (_, _, _, h) = absurd h
agent_at-At pausing top s k (e, p, n, a) = (
  e,
  p,
  n,
  either (Waits s.word.pause_ack) (is_blocked s.word) asleep (decided s.word) (λ _. a)
      (λ _. (e, a)),
)
agent_at-At pausing asleep s k (e, p, n, a) = (e, p, n, rw k a)
agent_at-At pausing paused s k (e, p, n, a) = rw (p, k) (e, refl, n, tt)
agent_at-At pausing (decided w) s k (e, p, n, (e', a)) =
    rw e' (elim (Bool-cases w.pause) [ inl h ↦ rw h (e, p, n, tt) | inr h ↦ rw h (e, p, n, a) ])
agent_at-At pausing (visiting j) s k (e, p, n, a) = elim (Bool-cases (ltb j s.next_handle)) [
  | inl h ↦ rw h (e, p, n, a)
  | inr h ↦ rw h (e, p, n, a)
]
agent_at-At pausing (dumping j q) s k h = h
agent_at-At forking _ s k (inl (n, h, e, p, a)) = rw h (inl (n, k ∙ h, e, p, a))
agent_at-At forking _ s k (inr (n, h, e, p, a)) = rw (h, p) (inr (n, k ∙ h, e, refl, a))
agent_at-At joining absent s k (_, _, _, _, h) = absurd h
agent_at-At joining gone s k (n, e, p, a, _) = (n, e, p, a, rw k tt)
agent_at-At joining top s k (n, e, p, a, _) =
    (n, e, p, a, either Ends (is_blocked s.word) asleep (decided s.word) (λ _. tt) (λ _. p))
agent_at-At joining asleep s k (n, e, p, a, _) = (n, e, p, a, rw k tt)
agent_at-At joining paused s k (n, e, p, a, _) = rw p (n, e, refl, a, tt)
agent_at-At joining (decided w) s k (n, e, p, a, p') = elim (Bool-cases w.exit) [
  | inl h ↦ rw h (n, e, p, a, tt)
  | inr h ↦ rw (h, p') (n, e, p, a, tt)
]
agent_at-At joining (visiting j) s k (n, e, p, a, _) = elim (Bool-cases (ltb j s.next_handle)) [
  | inl h ↦ rw h (n, e, p, a, tt)
  | inr h ↦ rw h (n, e, p, a, tt)
]
agent_at-At joining (dumping j q) s k h = h

pub agent_at-owner : (k : Worker) (s : AgentThread) → (agent_at k s).owner ≡ s.owner
agent_at-owner top s = refl
agent_at-owner paused s =
    either (λ t. t.owner ≡ s.owner) s.word.pause s (record s { worker = top }) (λ _. refl)
      (λ _. refl)
agent_at-owner (decided w) s = elim (Bool-cases w.exit) [
  | inl h ↦ rw h refl
  | inr h ↦ elim (Bool-cases w.pause) [ inl h' ↦ rw (h, h') refl | inr h' ↦ rw (h, h') refl ]
]
agent_at-owner (visiting j) s = elim (Bool-cases (ltb j s.next_handle)) [
  | inl h ↦ rw h refl
  | inr h ↦ rw h refl
]
agent_at-owner (dumping j q) s = refl
agent_at-owner _ s = refl

pub wake_worker-At :
    (o : Owner) (k : Worker) (w : Word) (n : ℕ) → At o w k n → At o w (wake_worker k) n
wake_worker-At nobody asleep w n h = h
wake_worker-At pausing asleep w n h = h
wake_worker-At forking asleep w n (inl (_, h, _, _, _)) = cc
wake_worker-At forking asleep w n (inr (_, h, _, _, _)) = cc
wake_worker-At joining asleep w n h = h
wake_worker-At o _ w n h = h

pub handle_request-At :
    (o : Owner) (k : Worker) (w : Word) (n : ℕ)
    → At o w k n
    → At o (record w { handle_request = true }) k n
handle_request-At nobody k w n h = h
handle_request-At pausing k w n h = h
handle_request-At forking k w n h = h
handle_request-At joining k w n h = h

pub queue_pending-Sound : (s : AgentThread) (i key : ℕ) → Sound s → Sound (queue_pending s i key)
queue_pending-Sound s i key h = elim (Bool-cases (is_agent (s.handles i).request.mode)) [
  | inl e ↦
      rw e (
        wake_worker-At s.owner s.worker _ s.ref (handle_request-At s.owner s.worker s.word s.ref h))
  | inr e ↦ rw e h
]

pub owned : (s : AgentThread) (o : Owner) → s.owner ≡ o → Sound s → At o s.word s.worker s.ref
owned s o e h = subst (λ o. At o s.word s.worker s.ref) e h

pub sound : (s : AgentThread) (o : Owner) → s.owner ≡ o → At o s.word s.worker s.ref → Sound s
sound s o e h = subst (λ o. At o s.word s.worker s.ref) (sym e) h
