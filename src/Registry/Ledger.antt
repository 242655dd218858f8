-- ===== src/Registry/Ledger.antt =====
-- What each tracer has been told, against what is registered.
use libside.Common.{
  ℕ, ◌+◌, ◌*◌, ◌<◌, ◌≡◌, Bool, true, false, ◌&&◌, List, [], ◌∷◌, ◌++◌, map, arith, ◌==◌,
  if◌then◌else◌,
}
use libside.Registry.{
  EventsHandle, TracerHandle, Notification, insert_events, remove_events, Notice, notice, Side,
  remove_events_node, remove_tracer_node,
}

abbrev pub is_insert : Notification → Bool
is_insert insert_events = true
is_insert remove_events = false

-- How often the tracer at `t` was told of the insertion of the handle at `h`, and of its removal.
unfoldable pub inserted : (t h : ℕ) → List Notice → ℕ
inserted t h [] = 0
inserted t h (n ∷ log) =
    (if is_insert n.kind && (n.to.node == t) && (n.of.node == h) then 1 else 0) + inserted t h log

unfoldable pub removed : (t h : ℕ) → List Notice → ℕ
removed t h [] = 0
removed t h (n ∷ log) =
    (if is_insert n.kind then 0 else if (n.to.node == t) && (n.of.node == h) then 1 else 0)
    + removed t h log

unfoldable pub tracers_at : ℕ → List TracerHandle → ℕ
tracers_at t [] = 0
tracers_at t (x ∷ xs) = (if x.node == t then 1 else 0) + tracers_at t xs

unfoldable pub events_at : ℕ → List EventsHandle → ℕ
events_at h [] = 0
events_at h (x ∷ xs) = (if x.node == h then 1 else 0) + events_at h xs

-- A tracer that is registered has been told of every registered handle once more than of its
-- removal; for all others the two are even.
abbrev pub Balanced : List Notice → Side → Type 0
Balanced log s =
    (t h : ℕ)
    → inserted t h log ≡ removed t h log + tracers_at t s.tracer_list * events_at h s.events_list

pub inserted-append :
    (t h : ℕ) (xs ys : List Notice) → inserted t h (xs ++ ys) ≡ inserted t h xs + inserted t h ys
unfolding inserted
inserted-append t h [] ys = omega arith
inserted-append t h (x ∷ xs) ys = omega (arith, inserted-append t h xs ys)

pub removed-append :
    (t h : ℕ) (xs ys : List Notice) → removed t h (xs ++ ys) ≡ removed t h xs + removed t h ys
unfolding removed
removed-append t h [] ys = omega arith
removed-append t h (x ∷ xs) ys = omega (arith, removed-append t h xs ys)

pub tracers_at-append :
    (t : ℕ) (xs ys : List TracerHandle)
    → tracers_at t (xs ++ ys) ≡ tracers_at t xs + tracers_at t ys
unfolding tracers_at
tracers_at-append t [] ys = omega arith
tracers_at-append t (x ∷ xs) ys = omega (arith, tracers_at-append t xs ys)

pub events_at-append :
    (h : ℕ) (xs ys : List EventsHandle) → events_at h (xs ++ ys) ≡ events_at h xs + events_at h ys
unfolding events_at
events_at-append h [] ys = omega arith
events_at-append h (x ∷ xs) ys = omega (arith, events_at-append h xs ys)

-- All tracers are told of one handle.
pub record ToldAll (k : Notification) (h : EventsHandle) (ts : List TracerHandle) (t g : ℕ)
    : Type 0 where
  pub ins :
      inserted t g (map (notice k h) ts)
      ≡ (if is_insert k && (h.node == g) then tracers_at t ts else 0)
  pub rem :
      removed t g (map (notice k h) ts)
      ≡ (if is_insert k then 0 else if h.node == g then tracers_at t ts else 0)

pub told_all :
    (k : Notification) (h : EventsHandle) (ts : List TracerHandle) (t g : ℕ) → ToldAll k h ts t g
unfolding inserted removed tracers_at
told_all k h [] t g = record { ins = ground arith; rem = ground arith }
told_all insert_events h (x ∷ xs) t g = record {
  ins = ground (arith, (told_all insert_events h xs t g).ins);
  rem = ground (arith, (told_all insert_events h xs t g).rem);
}
told_all remove_events h (x ∷ xs) t g = record {
  ins = ground (arith, (told_all remove_events h xs t g).ins);
  rem = ground (arith, (told_all remove_events h xs t g).rem);
}

-- One tracer is told of all handles.
pub record ToldOf (k : Notification) (x : TracerHandle) (hs : List EventsHandle) (t g : ℕ)
    : Type 0 where
  pub ins :
      inserted t g (map (λ h. notice k h x) hs)
      ≡ (if is_insert k && (x.node == t) then events_at g hs else 0)
  pub rem :
      removed t g (map (λ h. notice k h x) hs)
      ≡ (if is_insert k then 0 else if x.node == t then events_at g hs else 0)

pub told_of :
    (k : Notification) (x : TracerHandle) (hs : List EventsHandle) (t g : ℕ) → ToldOf k x hs t g
unfolding inserted removed events_at
told_of k x [] t g = record { ins = ground arith; rem = ground arith }
told_of insert_events x (h ∷ hs) t g = record {
  ins = ground (arith, (told_of insert_events x hs t g).ins);
  rem = ground (arith, (told_of insert_events x hs t g).rem);
}
told_of remove_events x (h ∷ hs) t g = record {
  ins = ground (arith, (told_of remove_events x hs t g).ins);
  rem = ground (arith, (told_of remove_events x hs t g).rem);
}

pub events_at-remove :
    (n g : ℕ) (hs : List EventsHandle)
    → 0 < events_at n hs
    → events_at g (remove_events_node n hs) + (if n == g then 1 else 0) ≡ events_at g hs
unfolding events_at
events_at-remove n g [] here = absurd (omega arith)
events_at-remove n g (h ∷ hs) here = ground (arith, events_at-remove n g hs)

pub tracers_at-remove :
    (n g : ℕ) (ts : List TracerHandle)
    → 0 < tracers_at n ts
    → tracers_at g (remove_tracer_node n ts) + (if n == g then 1 else 0) ≡ tracers_at g ts
unfolding tracers_at
tracers_at-remove n g [] here = absurd (omega arith)
tracers_at-remove n g (t ∷ ts) here = ground (arith, tracers_at-remove n g ts)

pub events_at-one :
    (h : ℕ) (x : EventsHandle) → events_at h (x ∷ []) ≡ (if x.node == h then 1 else 0)
unfolding events_at
events_at-one h x = omega arith

pub tracers_at-one :
    (t : ℕ) (x : TracerHandle) → tracers_at t (x ∷ []) ≡ (if x.node == t then 1 else 0)
unfolding tracers_at
tracers_at-one t x = omega arith

-- One more in one factor.
pub mul-grow :
    (k a b : ℕ) (c : Bool)
    → b ≡ a + (if c then 1 else 0)
    → (k * b ≡ k * a + (if c then k else 0)) × (b * k ≡ a * k + (if c then k else 0))
mul-grow k a b true e = (rw e (omega arith), rw e (omega arith))
mul-grow k a b false e = (rw e (omega arith), rw e (omega arith))
