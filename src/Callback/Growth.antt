-- ===== src/Callback/Growth.antt =====
-- What a registration leaves reachable: on an event without callbacks, and on one that has one.
-- memcpy() in `_side_tracer_callback_register` is given the number of callbacks where it takes a
-- number of bytes.
use mathlib.Core.Path.{subst}
use libside.Common.{
  ◌+◌, ◌/◌, ◌%◌, ◌≡◌, ◌≢◌, [], ◌∷◌, arith, ◌==◌, if◌then◌else◌, ok, Bool-cases, inl, inr, ap, ◌∙◌,
  ==_iff,
}
use libside.Callback.{SideCallback, callback, EventState, sizeof_callback, entry}
use libside.Callback.Bytes.{calloc}
use libside.Callback.Words.{word-suc, word-zero}
use libside.Callback.Entry.{Fits, callback_eq, entry-with_self, entry-with_other}
use libside.Callback.Live.{live_from-stop, live_from-cons}
use libside.Callback.Invariant.{IsValid, live, copied, grown, grown-ended}
use libside.Callback.Register.{registered, grown-size}

module _ {s : EventState} (v : IsValid s) (cb : SideCallback) (f : Fits cb)
    (usable : cb.call ≢ 0) where
  entry-grown_self : entry (grown s cb) s.nr_callbacks ≡ cb
  unfolding grown
  entry-grown_self = entry-with_self _ s.nr_callbacks cb f

  -- The first registration on an event makes its callback, and no other, reachable.
  pub live-registered_first : s.nr_callbacks ≡ 0 → live (registered s cb) ≡ ok (cb ∷ [])
  unfolding live registered
  live-registered_first first =
      let room : (grown s cb).size / 24 ≡ 2 = omega (arith, grown-size v cb) in
      let here = subst (λ n. entry (grown s cb) n ≡ cb) first entry-grown_self in
      let end = subst (λ n. (entry (grown s cb) n).call ≡ 0) (omega arith) (grown-ended v cb) in
      rw room (live_from-cons 1 _ 0 cb here usable (live_from-stop 0 _ 1 end))

  first_byte :
      s.nr_callbacks ≡ 1
      → (copied (calloc (s.nr_callbacks + 2) sizeof_callback) 0 s.callbacks 0 s.nr_callbacks).byte 0
        ≡ s.callbacks.byte 0
  first_byte second = ground arith

  -- Of the one callback that was there, a second registration keeps the lowest byte of the function
  -- pointer.
  entry-grown_first :
      s.nr_callbacks ≡ 1 → entry (grown s cb) 0 ≡ callback ((entry s.callbacks 0).call % 256) 0 0
  unfolding grown entry calloc
  entry-grown_first second =
      let b = copied (calloc (s.nr_callbacks + 2) sizeof_callback) 0 s.callbacks 0 s.nr_callbacks in
      entry-with_other b s.nr_callbacks 0 cb (omega arith)
      ∙ callback_eq
          (omega (
            arith,
            word-suc 7 b.byte 0,
            word-zero 7 b.byte 1 (λ i l u. ground arith),
            word-suc 7 s.callbacks.byte 0,
            v.bytes 0,
            first_byte second,
          ))
          (word-zero 8 b.byte 8 (λ i l u. ground arith))
          (word-zero 8 b.byte 16 (λ i l u. ground arith))

  pub live-registered_second :
      s.nr_callbacks ≡ 1
      → let kept = (entry s.callbacks 0).call % 256 in
        live (registered s cb) ≡ ok (if kept == 0 then [] else callback kept 0 0 ∷ cb ∷ [])
  unfolding live registered
  live-registered_second second =
      let room : (grown s cb).size / 24 ≡ 3 = omega (arith, grown-size v cb) in
      let first = entry-grown_first second in
      let here : entry (grown s cb) 1 ≡ cb =
        subst (λ n. entry (grown s cb) n ≡ cb) second entry-grown_self in
      let end : (entry (grown s cb) 2).call ≡ 0 =
        subst (λ n. (entry (grown s cb) n).call ≡ 0) (omega arith) (grown-ended v cb) in
      rw room (elim (Bool-cases ((entry s.callbacks 0).call % 256 == 0)) [
        | inl lost ↦ rw lost (live_from-stop 2 _ 0 (ap (λ c. c.call) first ∙ (==_iff _ 0).0 lost))
        | inr kept ↦
            let some_byte : (entry s.callbacks 0).call % 256 ≢ 0 = ground arith in
            rw kept (
              live_from-cons 2 _ 0 (callback ((entry s.callbacks 0).call % 256) 0 0) first some_byte
                (live_from-cons 1 _ 1 cb here usable (live_from-stop 0 _ 2 end)))
      ])
