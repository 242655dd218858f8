-- ===== src/Callback/Invariant.antt =====
-- What holds of the callback array of an event between two calls: the array ends inside its block,
-- the block is the static one exactly when there is no callback, and the private part of `enabled`
-- counts one when there is one.
use mathlib.Core.Path.{subst}
use libside.Common.{
  ℕ, ◌+◌, ◌-◌, ◌*◌, ◌/◌, ◌%◌, ◌^◌, ◌≤◌, ◌<◌, ◌≡◌, List, [], arith, ◌==◌, leb, ltb, ◌&&◌,
  if◌then◌else◌, length, Outcome, ok,
}
use libside.Callback.{SideCallback, EventState, uint32_max, sizeof_callback, entry, callback_lookup}
use libside.Callback.Bytes.{Block, memcpy, calloc}
use libside.Callback.Words.{store-lt}
use libside.Callback.Entry.{with_entry, entry-with_other, entry-call_zero}
use libside.Callback.Live.{live_from, live_from-stop, live_from-total, lookup_from-live, position}

pub record IsValid (s : EventState) : Type 0 where
  pub version : s.version ≡ 0
  pub few : s.nr_callbacks ≤ uint32_max
  pub sized : s.callbacks.size ≡ 24 * (s.nr_callbacks + 1)
  pub owned : s.callbacks.static ≡ (s.nr_callbacks == 0)
  pub bytes : (i : ℕ) → s.callbacks.byte i < 256
  pub ended : (entry s.callbacks s.nr_callbacks).call ≡ 0
  pub counted : s.enabled % 2 ^ 56 ≡ (if s.nr_callbacks == 0 then 0 else 1)

-- The reachable callbacks of an event.
unfoldable pub live : EventState → Outcome (List SideCallback)
live s = live_from (s.callbacks.size / 24) s.callbacks 0

-- The copy that memcpy() makes within bounds.
abbrev pub copied : Block → ℕ → Block → ℕ → ℕ → Block
copied dst at src from n = record dst {
  byte = λ i. if leb at i && ltb i (at + n) then src.byte (from + (i - at)) else dst.byte i;
}

pub memcpy-ok :
    (dst : Block) (at : ℕ) (src : Block) (from n : ℕ)
    → at + n ≤ dst.size
    → from + n ≤ src.size
    → memcpy dst at src from n ≡ ok (copied dst at src from n)
unfolding memcpy
memcpy-ok dst at src from n p q = ground arith

-- The array that a registration builds.
unfoldable pub grown : EventState → SideCallback → Block
grown s cb =
    with_entry (copied (calloc (s.nr_callbacks + 2) sizeof_callback) 0 s.callbacks 0 s.nr_callbacks)
      s.nr_callbacks cb

module _ {s : EventState} (v : IsValid s) where
  open v use {version, few, sized, owned, bytes, ended, counted}

  pub live-total : (xs : List SideCallback) × (live s ≡ ok xs) × (length xs ≤ s.nr_callbacks)
  unfolding live
  live-total =
      let (xs, e, short) =
        live_from-total (s.callbacks.size / 24) s.callbacks 0 s.nr_callbacks ended (omega arith)
          (omega arith) in
      (xs, e, omega arith)

  pub live-length : {xs : List SideCallback} → live s ≡ ok xs → length xs ≤ s.nr_callbacks
  live-length {xs} e =
      let (ys, found, short) = live-total in let same : xs ≡ ys = cc in rw same short

  pub live-nil : s.nr_callbacks ≡ 0 → live s ≡ ok []
  unfolding live
  live-nil empty =
      let one : s.callbacks.size / 24 ≡ 1 = omega arith in
      let end : (entry s.callbacks 0).call ≡ 0 =
        subst (λ n. (entry s.callbacks n).call ≡ 0) empty ended in
      rw one (live_from-stop 0 s.callbacks 0 end)

  pub callback_lookup-live :
      (cb : SideCallback) {xs : List SideCallback}
      → live s ≡ ok xs
      → callback_lookup s cb ≡ ok (position 0 xs cb)
  unfolding live callback_lookup
  callback_lookup-live cb e =
      rw version (lookup_from-live (s.callbacks.size / 24) s.callbacks 0 cb e)

  pub grown-ended : (cb : SideCallback) → (entry (grown s cb) (s.nr_callbacks + 1)).call ≡ 0
  unfolding grown calloc
  grown-ended cb =
      let b = copied (calloc (s.nr_callbacks + 2) sizeof_callback) 0 s.callbacks 0 s.nr_callbacks in
      rw (entry-with_other b s.nr_callbacks (s.nr_callbacks + 1) cb (omega arith))
        (entry-call_zero b (s.nr_callbacks + 1) (λ k l u. ground arith))

  pub grown-bytes : (cb : SideCallback) (i : ℕ) → (grown s cb).byte i < 256
  unfolding grown calloc
  grown-bytes cb =
      let b = copied (calloc (s.nr_callbacks + 2) sizeof_callback) 0 s.callbacks 0 s.nr_callbacks in
      let small : (i : ℕ) → b.byte i < 256 =
        λ i. ground (arith, bytes (i - 0), bytes (0 + (i - 0))) in
      store-lt 8 _ (24 * s.nr_callbacks + 16) cb.key (
        store-lt 8 _ (24 * s.nr_callbacks + 8) cb.priv
          (store-lt 8 b.byte (24 * s.nr_callbacks) cb.call small))
