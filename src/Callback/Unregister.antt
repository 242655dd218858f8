-- ===== src/Callback/Unregister.antt =====
-- `_side_tracer_callback_unregister` and `side_event_remove_callbacks` of src/side.c on every branch.
use libside.Common.{
  ℕ, ◌+◌, ◌-◌, ◌*◌, ◌%◌, ◌^◌, ◌<◌, ◌≡◌, ◌≢◌, refl, Bool, true, false, Option, none, some, List, [],
  ◌∷◌, arith, ◌==◌, if◌then◌else◌, ◌||◌, ok, not, ==_iff, Bool-cases, inl, inr, ◌>>=◌,
}
use libside.Callback.{
  SideCallback, EventState, error_ok, noent, nomem, Update, assign_pointer, wait_grace_period,
  free_old, sizeof_callback, entry, empty_callback, refuse, without_entry, remove_entry,
  callback_unregister, remove_callbacks,
}
use libside.Callback.Bytes.{Block, calloc, free}
use libside.Callback.Entry.{entry-call_zero}
use libside.Callback.Live.{position, position-lt}
use libside.Callback.Invariant.{
  IsValid, live, copied, memcpy-ok, live-length, live-nil, callback_lookup-live,
}

-- The array that is left when the entry at `p` goes.
unfoldable pub shrunk : EventState → ℕ → Block
shrunk s p =
    if s.nr_callbacks == 1
    then empty_callback
    else copied (copied (calloc s.nr_callbacks sizeof_callback) 0 s.callbacks 0 p)
        (sizeof_callback * p) s.callbacks (sizeof_callback * (p + 1)) (s.nr_callbacks - p - 1)

unfoldable pub unregistered : EventState → ℕ → EventState
unregistered s p = record s {
  callbacks = shrunk s p;
  nr_callbacks = s.nr_callbacks - 1;
  enabled = if s.nr_callbacks == 1 then (s.enabled + 2 ^ 64 - 1) % 2 ^ 64 else s.enabled;
}

-- The outcome, from where the callback stands among those that are reachable.
abbrev pub unregister_result : Bool → EventState → Option ℕ → Update
unregister_result calloc_ok s none = record { state = s; error = noent; effects = [] }
unregister_result calloc_ok s (some p) =
    if s.nr_callbacks == 1 || calloc_ok
    then record {
      state = unregistered s p;
      error = error_ok;
      effects = assign_pointer ∷ wait_grace_period ∷ free_old ∷ [];
    }
    else record { state = s; error = nomem; effects = [] }

module _ {s : EventState} (v : IsValid s) where
  open v use {version, few, sized, owned, bytes, ended, counted}

  without_entry-last :
      (calloc_ok : Bool) (p : ℕ)
      → s.nr_callbacks ≡ 1
      → without_entry calloc_ok s p ≡ ok (some (shrunk s p))
  unfolding without_entry shrunk
  without_entry-last calloc_ok p last = ground arith

  without_entry-ok :
      (p : ℕ)
      → p < s.nr_callbacks
      → s.nr_callbacks ≢ 1
      → without_entry true s p ≡ ok (some (shrunk s p))
  unfolding without_entry shrunk calloc
  without_entry-ok p here more =
      let fresh = calloc s.nr_callbacks sizeof_callback in
      let several : (s.nr_callbacks == 1) ≡ false = ground arith in
      rw (
        several,
        memcpy-ok fresh 0 s.callbacks 0 p (omega arith) (omega arith),
        memcpy-ok (copied fresh 0 s.callbacks 0 p) (sizeof_callback * p) s.callbacks
            (sizeof_callback * (p + 1)) (s.nr_callbacks - p - 1) (omega arith) (omega arith),
      )

  remove_entry-ok :
      (calloc_ok : Bool) (p : ℕ)
      → p < s.nr_callbacks
      → remove_entry calloc_ok s p ≡ ok (unregister_result calloc_ok s (some p))
  unfolding remove_entry unregistered free
  remove_entry-ok calloc_ok p here =
      let heap : s.callbacks.static ≡ false = ground arith in
      let fewer : (s.nr_callbacks + 2 ^ 32 - 1) % 2 ^ 32 ≡ s.nr_callbacks - 1 = omega arith in
      elim (Bool-cases (s.nr_callbacks == 1)) [
        | inl last ↦
            rw (without_entry-last calloc_ok p ((==_iff _ 1).0 last), heap, fewer) (ground arith)
        | inr more ↦ several calloc_ok more heap fewer
      ]
    where
      several :
          (calloc_ok : Bool)
          → (s.nr_callbacks == 1) ≡ false
          → s.callbacks.static ≡ false
          → (s.nr_callbacks + 2 ^ 32 - 1) % 2 ^ 32 ≡ s.nr_callbacks - 1
          → remove_entry calloc_ok s p ≡ ok (unregister_result calloc_ok s (some p))
      several true more heap fewer =
          rw (without_entry-ok p here (ground arith), heap, fewer) (ground arith)
      several false more heap fewer = unfold without_entry in ground arith

  shrunk-size : (p : ℕ) → p < s.nr_callbacks → (shrunk s p).size ≡ 24 * s.nr_callbacks
  unfolding shrunk calloc
  shrunk-size p here = ground arith

  shrunk-static : (p : ℕ) → p < s.nr_callbacks → (shrunk s p).static ≡ (s.nr_callbacks == 1)
  unfolding shrunk calloc
  shrunk-static p here = ground arith

  shrunk-bytes : (p i : ℕ) → (shrunk s p).byte i < 256
  unfolding shrunk calloc
  shrunk-bytes p i =
      ground
        (arith, bytes (sizeof_callback * (p + 1) + (i - sizeof_callback * p)), bytes (0 + (i - 0)))

  shrunk-ended : (p : ℕ) → p < s.nr_callbacks → (entry (shrunk s p) (s.nr_callbacks - 1)).call ≡ 0
  unfolding shrunk calloc
  shrunk-ended p here = entry-call_zero (shrunk s p) (s.nr_callbacks - 1) (λ k l u. ground arith)

  -- Taking out a callback at a place below the counter leaves a valid state.
  pub unregistered-IsValid : (p : ℕ) → p < s.nr_callbacks → IsValid (unregistered s p)
  unfolding unregistered
  unregistered-IsValid p here = record {
    version = version;
    few = omega arith;
    sized = rw (shrunk-size p here) (omega arith);
    owned = rw (shrunk-static p here) (ground arith);
    bytes = shrunk-bytes p;
    ended = shrunk-ended p here;
    counted = ground arith;
  }

  -- An unregistration on a valid state neither aborts nor accesses memory out of bounds: its answer is
  -- "no entry" when the callback is not reachable, and else that of the removal at its place, which
  -- changes nothing if calloc() fails.
  pub callback_unregister_lem :
      (calloc_ok : Bool) (cb : SideCallback) {xs : List SideCallback}
      → live s ≡ ok xs
      → callback_unregister calloc_ok s cb ≡ ok (unregister_result calloc_ok s (position 0 xs cb))
  unfolding callback_unregister
  callback_unregister_lem calloc_ok cb {xs} e =
      let checked : not (s.version == 0) ≡ false = ground arith in
      rw (checked, callback_lookup-live v cb e) (answer (position 0 xs cb) refl)
    where
      answer :
          (found : Option ℕ)
          → position 0 xs cb ≡ found
          → (ok found >>= λ r. elim r [
            | none ↦ refuse s noent
            | some p ↦ remove_entry calloc_ok s p
          ])
            ≡ ok (unregister_result calloc_ok s found)
      answer none at = refl
      answer (some p) at =
          remove_entry-ok calloc_ok p (omega (arith, position-lt 0 xs cb p at, live-length v e))

-- The state after `side_event_remove_callbacks`, where there were callbacks.
abbrev emptied : EventState → EventState
emptied s = record s {
  enabled = (s.enabled + 2 ^ 64 - 1) % 2 ^ 64;
  nr_callbacks = 0;
  callbacks = empty_callback;
}

module _ {s : EventState} (v : IsValid s) where
  emptied-IsValid : (s.nr_callbacks == 0) ≡ false → IsValid (emptied s)
  emptied-IsValid some_there = record {
    version = v.version;
    few = omega arith;
    sized = refl;
    owned = refl;
    bytes = λ i. omega arith;
    ended = entry-call_zero empty_callback 0 (λ k l u. refl);
    counted = ground (arith, v.counted);
  }

  -- Taking all callbacks away from a valid state succeeds and leaves a valid state with none reachable.
  pub remove_callbacks_lem :
      (t : EventState) × (remove_callbacks s ≡ ok t)
      × IsValid t
      × (t.nr_callbacks ≡ 0)
      × (live t ≡ ok [])
  remove_callbacks_lem = elim (Bool-cases (s.nr_callbacks == 0)) [
    | inl none_there ↦
        let nil : s.nr_callbacks ≡ 0 = (==_iff _ 0).0 none_there in
        (s, unfold remove_callbacks in ground (arith, v.version), v, nil, live-nil v nil)
    | inr some_there ↦
        let valid : IsValid (emptied s) = emptied-IsValid some_there in
        (
          emptied s,
          unfold remove_callbacks free in ground (arith, v.version, v.owned),
          valid,
          refl,
          live-nil valid refl,
        )
  ]
