-- ===== src/Callback.antt =====
-- src/side.c: the array of tracer callbacks of one event, on a 64-bit little-endian machine.
-- `struct side_callback` is 24 bytes: the function pointer, `priv` and `key`. The array ends at the
-- first entry whose function pointer is NULL.
pub mod Bytes
pub mod Words
pub mod Entry
pub mod Live
pub mod Register
pub mod Growth
pub mod Delivery
pub mod Unregister
pub mod Invariant
pub mod Examples
use Bytes.{Block, word, store, calloc, memcpy, free}
use libside.Common.{
  ℕ, zero, suc, ◌+◌, ◌-◌, ◌*◌, ◌/◌, ◌%◌, ◌^◌, Bool, true, false, ◌&&◌, ◌||◌, not, Option, none,
  some, List, [], ◌∷◌, leb, ◌==◌, if◌then◌else◌, Outcome, ok, aborted, fault, ◌>>=◌, ◌>>◌,
}

pub data SideError : Type 0 where
  error_ok inval exist nomem noent exiting : SideError

pub record SideCallback : Type 0 where
  pub call : ℕ
  pub priv : ℕ
  pub key : ℕ

abbrev pub callback : ℕ → ℕ → ℕ → SideCallback
callback c p k = record { call = c; priv = p; key = k }

abbrev pub sizeof_callback : ℕ
sizeof_callback = 24

abbrev pub uint32_max : ℕ
uint32_max = 2 ^ 32 - 1

abbrev pub key_match_all : ℕ
key_match_all = 0

-- `side_empty_callback`
abbrev pub empty_callback : Block
empty_callback = record { static = true; size = 24; byte = λ _. 0 }

unfoldable pub entry : Block → ℕ → SideCallback
entry b i = record {
  call = word 8 b.byte (24 * i);
  priv = word 8 b.byte (24 * i + 8);
  key = word 8 b.byte (24 * i + 16);
}

-- The three assignments to `new_cb[i]`.
unfoldable pub put_entry : Block → ℕ → SideCallback → Outcome Block
put_entry b i cb =
    if leb (24 * i + 24) b.size
    then ok (record b {
      byte =
          store 8 (store 8 (store 8 b.byte (24 * i) cb.call) (24 * i + 8) cb.priv) (24 * i + 16)
            cb.key;
    })
    else fault

-- `struct side_event_state_0`, with the version of its parent and the flag of its description.
pub record EventState : Type 0 where
  pub version : ℕ
  pub variadic : Bool
  pub nr_callbacks : ℕ
  pub enabled : ℕ
  pub callbacks : Block

-- What an update does to the shared array, in order.
pub data Effect : Type 0 where
  assign_pointer wait_grace_period free_old : Effect

pub record Update : Type 0 where
  pub state : EventState
  pub error : SideError
  pub effects : List Effect

abbrev pub refuse : EventState → SideError → Outcome Update
refuse s e = ok (record { state = s; error = e; effects = [] })

abbrev pub same_callback : SideCallback → SideCallback → Bool
same_callback a b = (a.call == b.call) && (a.priv == b.priv) && (a.key == b.key)

-- The loop of `side_tracer_callback_lookup` with `n` entries left in the block from index `i`: to
-- go on behind the last is a fault.
unfoldable pub lookup_from : ℕ → Block → ℕ → SideCallback → Outcome (Option ℕ)
lookup_from zero b i cb = fault
lookup_from (suc n) b i cb =
    let rest = lookup_from n b (suc i) cb in
    if (entry b i).call == 0
    then ok none
    else (if same_callback (entry b i) cb then ok (some i) else rest)

unfoldable pub callback_lookup : EventState → SideCallback → Outcome (Option ℕ)
unfolding lookup_from
callback_lookup s cb =
    if not (s.version == 0) then aborted else lookup_from (s.callbacks.size / 24) s.callbacks 0 cb

-- The body of `_side_tracer_callback_register` from the allocation on; `old_nr_cb + 2` is an `uint32_t`.
unfoldable pub append_callback : (calloc_ok : Bool) → EventState → SideCallback → Outcome Update
append_callback calloc_ok s cb =
    let old_nr_cb = s.nr_callbacks in
    if not calloc_ok then refuse s nomem else do
      copied ← memcpy (calloc ((old_nr_cb + 2) % 2 ^ 32) sizeof_callback) 0 s.callbacks 0 old_nr_cb
      new_cb ← put_entry copied old_nr_cb cb
      (if old_nr_cb == 0 then ok tt else free s.callbacks)
      ok (record {
        state = record s {
          callbacks = new_cb;
          nr_callbacks = (old_nr_cb + 1) % 2 ^ 32;
          enabled = if old_nr_cb == 0 then (s.enabled + 1) % 2 ^ 64 else s.enabled;
        };
        error = error_ok;
        effects =
            assign_pointer ∷ wait_grace_period ∷ (if old_nr_cb == 0 then [] else free_old ∷ []);
      })

-- `_side_tracer_callback_register` under `side_event_lock`.
unfoldable pub callback_register : (calloc_ok : Bool) → EventState → SideCallback → Outcome Update
unfolding append_callback
callback_register calloc_ok s cb =
    if not (s.version == 0)
    then aborted
    else (if s.nr_callbacks == uint32_max then refuse s inval else do
      found ← callback_lookup s cb
      elim found [ some _ ↦ refuse s exist | none ↦ append_callback calloc_ok s cb ])

-- The new array of `_side_tracer_callback_unregister`; `none` when calloc() fails.
unfoldable pub without_entry : (calloc_ok : Bool) → EventState → ℕ → Outcome (Option Block)
without_entry calloc_ok s pos_idx =
    let old_nr_cb = s.nr_callbacks in
    if old_nr_cb == 1
    then ok (some empty_callback)
    else (if not calloc_ok then ok none else do
      head ← memcpy (calloc old_nr_cb sizeof_callback) 0 s.callbacks 0 pos_idx
      new_cb ←
          memcpy head (sizeof_callback * pos_idx) s.callbacks (sizeof_callback * (pos_idx + 1))
            (old_nr_cb - pos_idx - 1)
      ok (some new_cb))

unfoldable pub remove_entry : (calloc_ok : Bool) → EventState → ℕ → Outcome Update
unfolding without_entry
remove_entry calloc_ok s pos_idx = do
  new_cb ← without_entry calloc_ok s pos_idx
  elim new_cb [
    | none ↦ refuse s nomem
    | some b ↦
        free s.callbacks
        >> ok (record {
          state = record s {
            callbacks = b;
            nr_callbacks = (s.nr_callbacks + 2 ^ 32 - 1) % 2 ^ 32;
            enabled = if s.nr_callbacks == 1 then (s.enabled + 2 ^ 64 - 1) % 2 ^ 64 else s.enabled;
          };
          error = error_ok;
          effects = assign_pointer ∷ wait_grace_period ∷ free_old ∷ [];
        })
  ]

-- `_side_tracer_callback_unregister` under `side_event_lock`.
unfoldable pub callback_unregister : (calloc_ok : Bool) → EventState → SideCallback → Outcome Update
unfolding remove_entry
callback_unregister calloc_ok s cb = if not (s.version == 0) then aborted else do
  found ← callback_lookup s cb
  elim found [ none ↦ refuse s noent | some pos_idx ↦ remove_entry calloc_ok s pos_idx ]

-- `side_event_remove_callbacks`
unfoldable pub remove_callbacks : EventState → Outcome EventState
remove_callbacks s =
    if not (s.version == 0)
    then aborted
    else (if s.nr_callbacks == 0
        then ok s
        else free s.callbacks
          >> ok (record s {
            enabled = (s.enabled + 2 ^ 64 - 1) % 2 ^ 64;
            nr_callbacks = 0;
            callbacks = empty_callback;
          }))
