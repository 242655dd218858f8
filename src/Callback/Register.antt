-- ===== src/Callback/Register.antt =====
-- `_side_tracer_callback_register` of src/side.c on every branch.
use libside.Common.{
  ℕ, ◌+◌, ◌*◌, ◌%◌, ◌^◌, ◌≡◌, ◌≢◌, ◌<◌, ◌-◌, refl, fault, Bool, true, false, Option, none, some,
  List, [], ◌∷◌, arith, ◌==◌, if◌then◌else◌, ok, not, ◌>>=◌,
}
use libside.Callback.{
  SideCallback, EventState, SideError, error_ok, inval, exist, nomem, Update, assign_pointer,
  wait_grace_period, free_old, uint32_max, sizeof_callback, append_callback, callback_register,
  refuse,
}
use libside.Callback.Bytes.{calloc, free, memcpy}
use libside.Callback.Entry.{put_entry-ok}
use libside.Callback.Live.{position}
use libside.Callback.Invariant.{
  IsValid, live, copied, memcpy-ok, grown, grown-ended, grown-bytes, callback_lookup-live,
}

-- The answer of a registration, from the number of callbacks and those that are reachable.
abbrev pub register_answer : Bool → ℕ → Option ℕ → SideError
register_answer calloc_ok nr found =
    if nr == uint32_max
    then inval
    else elim found [ some _ ↦ exist | none ↦ if calloc_ok then error_ok else nomem ]

-- The state that a successful registration leaves.
unfoldable pub registered : EventState → SideCallback → EventState
registered s cb = record s {
  callbacks = grown s cb;
  nr_callbacks = (s.nr_callbacks + 1) % 2 ^ 32;
  enabled = if s.nr_callbacks == 0 then (s.enabled + 1) % 2 ^ 64 else s.enabled;
}

abbrev pub register_result : EventState → SideCallback → SideError → Update
register_result s cb error_ok = record {
  state = registered s cb;
  error = error_ok;
  effects =
      assign_pointer ∷ wait_grace_period ∷ (if s.nr_callbacks == 0 then [] else free_old ∷ []);
}
register_result s cb e = record { state = s; error = e; effects = [] }

module _ {s : EventState} (v : IsValid s) where
  open v use {version, few, sized, owned, ended, counted}

  pub grown-size : (cb : SideCallback) → (grown s cb).size ≡ (s.nr_callbacks + 2) * 24
  unfolding grown calloc
  grown-size cb = refl

  grown-static : (cb : SideCallback) → (grown s cb).static ≡ false
  unfolding grown calloc
  grown-static cb = refl

  append_callback-ok :
      (cb : SideCallback)
      → s.nr_callbacks + 2 < 2 ^ 32
      → append_callback true s cb ≡ ok (register_result s cb error_ok)
  unfolding append_callback registered grown free calloc
  append_callback-ok cb room =
      let fresh = calloc (s.nr_callbacks + 2) sizeof_callback in
      let entries : (s.nr_callbacks + 2) % 2 ^ 32 ≡ s.nr_callbacks + 2 = omega (arith, room) in
      rw
        (
          entries,
          memcpy-ok fresh 0 s.callbacks 0 s.nr_callbacks (omega arith) (omega arith),
          put_entry-ok (copied fresh 0 s.callbacks 0 s.nr_callbacks) s.nr_callbacks cb
              (omega arith),
        )
        (ground arith)

  append_callback-answer :
      (calloc_ok : Bool) (cb : SideCallback)
      → s.nr_callbacks + 2 < 2 ^ 32
      → append_callback calloc_ok s cb
        ≡ ok (register_result s cb (if calloc_ok then error_ok else nomem))
  append_callback-answer true cb room = append_callback-ok cb room
  append_callback-answer false cb room = unfold append_callback in refl

  -- Appending a callback to a valid state whose counter is not at its maximum leaves a valid state.
  pub registered-IsValid :
      (cb : SideCallback) → s.nr_callbacks ≢ uint32_max → IsValid (registered s cb)
  unfolding registered
  registered-IsValid cb room =
      let next : (s.nr_callbacks + 1) % 2 ^ 32 ≡ s.nr_callbacks + 1 = omega arith in
      rw next (record {
        version = version;
        few = omega arith;
        sized = rw (grown-size cb) (omega arith);
        owned = rw (grown-static cb) (ground arith);
        bytes = grown-bytes v cb;
        ended = grown-ended v cb;
        counted = ground arith;
      })

  -- Unless there are 2^32 - 2 callbacks, a registration on a valid state neither aborts nor accesses memory out of bounds. Its answer is
  -- `inval` if the counter is at its maximum, else `exist` if the callback is reachable, else `nomem` if
  -- calloc() fails, else `error_ok`; it changes the state only when it answers `error_ok`.
  pub callback_register_lem :
      (calloc_ok : Bool) (cb : SideCallback) {xs : List SideCallback}
      → s.nr_callbacks ≢ uint32_max - 1
      → live s ≡ ok xs
      → let e = register_answer calloc_ok s.nr_callbacks (position 0 xs cb) in
        callback_register calloc_ok s cb ≡ ok (register_result s cb e)
  unfolding callback_register
  callback_register_lem calloc_ok cb {xs} spare e =
      let checked : not (s.version == 0) ≡ false = ground arith in
      rw (checked, callback_lookup-live v cb e)
        (answer (s.nr_callbacks == uint32_max) refl (position 0 xs cb))
    where
      answer :
          (full : Bool)
          → (s.nr_callbacks == uint32_max) ≡ full
          → (found : Option ℕ)
          → (if full
              then refuse s inval
              else (ok found >>= λ r. elim r [
                | some _ ↦ refuse s exist
                | none ↦ append_callback calloc_ok s cb
              ]))
            ≡ ok (
                register_result s cb (
                  if full then inval else elim found [
                    | some _ ↦ exist
                    | none ↦ if calloc_ok then error_ok else nomem
                  ]))
      answer true at found = refl
      answer false at (some _) = refl
      answer false at none = append_callback-answer calloc_ok cb (ground arith)

  -- On a valid state with 2^32 - 2 callbacks, the registration of a callback that is not reachable
  -- accesses memory out of bounds if calloc() succeeds: the number of entries that it asks for is 0.
  pub callback_register-fault :
      (cb : SideCallback) {xs : List SideCallback}
      → s.nr_callbacks ≡ uint32_max - 1
      → live s ≡ ok xs
      → position 0 xs cb ≡ none
      → callback_register true s cb ≡ fault
  unfolding callback_register append_callback memcpy calloc
  callback_register-fault cb {xs} full e new =
      let checked : not (s.version == 0) ≡ false = ground arith in
      rw (checked, callback_lookup-live v cb e, new, full) refl
