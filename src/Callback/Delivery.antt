-- ===== src/Callback/Delivery.antt =====
-- Registrations of src/side.c as a tracer sees them: which callbacks the event reaches afterwards.
use mathlib.Core.Path.{subst}
use libside.Common.{
  ◌/◌, ◌%◌, ◌≡◌, ◌≢◌, ◌≤◌, refl, true, false, none, List, [], ◌∷◌, arith, ◌==◌, if◌then◌else◌, ok,
  ◌∙◌, ap,
}
use libside.Callback.{
  SideCallback, callback, EventState, Update, error_ok, same_callback, callback_register,
}
use libside.Callback.Entry.{Fits}
use libside.Callback.Live.{position, live_from-head}
use libside.Callback.Invariant.{IsValid, live, live-nil}
use libside.Callback.Register.{
  callback_register_lem, registered, registered-IsValid, register_result, register_answer,
}
use libside.Callback.Growth.{live-registered_first, live-registered_second}

module _ {s : EventState} (v : IsValid s) (cb : SideCallback) (f : Fits cb)
    (usable : cb.call ≢ 0) where
  accepted :
      {xs : List SideCallback}
      → live s ≡ ok xs
      → s.nr_callbacks ≤ 1
      → position 0 xs cb ≡ none
      → callback_register true s cb ≡ ok (register_result s cb error_ok)
  accepted {xs} e room new =
      let answer : register_answer true s.nr_callbacks (position 0 xs cb) ≡ error_ok =
        rw new (ground arith) in
      callback_register_lem v true cb (omega (arith, room)) e
      ∙ ap (λ a. ok (register_result s cb a)) answer

  -- The first registration on a valid event succeeds if calloc() does and the callback's words fit and
  -- its function is not NULL; from then on the event reaches this callback and no other, and its state
  -- is valid.
  pub first_register :
      s.nr_callbacks ≡ 0
      → (u : Update) × (callback_register true s cb ≡ ok u)
        × (u.error ≡ error_ok)
        × IsValid u.state
        × (live u.state ≡ ok (cb ∷ []))
  unfolding position
  first_register none_yet = (
    register_result s cb error_ok,
    accepted (live-nil v none_yet) (omega arith) refl,
    refl,
    registered-IsValid v cb (omega arith),
    live-registered_first v cb f usable none_yet,
  )

  reached :
      {old : SideCallback}
      → s.nr_callbacks ≡ 1
      → live s ≡ ok (old ∷ [])
      → live (registered s cb)
        ≡ ok (if old.call % 256 == 0 then [] else callback (old.call % 256) 0 0 ∷ cb ∷ [])
  unfolding live
  reached one e =
      subst
        (λ c.
          live (registered s cb)
          ≡ ok (if c.call % 256 == 0 then [] else callback (c.call % 256) 0 0 ∷ cb ∷ []))
        (live_from-head (s.callbacks.size / 24) s.callbacks 0 e)
        (live-registered_second v cb f usable one)

  -- The second registration on a valid event, of another callback whose words fit and whose function is
  -- not NULL, succeeds if calloc() does, and leaves a valid state in which the event reaches, of the
  -- first callback, only the lowest byte of its function pointer: a callback at that address without
  -- private data and key, and then the new one; or, where the byte is zero, nothing at all, not even the
  -- new callback.
  pub second_register :
      {old : SideCallback}
      → s.nr_callbacks ≡ 1
      → live s ≡ ok (old ∷ [])
      → same_callback old cb ≡ false
      → let kept = old.call % 256 in
        (u : Update) × (callback_register true s cb ≡ ok u)
        × (u.error ≡ error_ok)
        × IsValid u.state
        × (live u.state ≡ ok (if kept == 0 then [] else callback kept 0 0 ∷ cb ∷ []))
  unfolding position
  second_register {old} one e other = (
    register_result s cb error_ok,
    accepted e (omega arith) (rw other refl),
    refl,
    registered-IsValid v cb (omega arith),
    reached one e,
  )
