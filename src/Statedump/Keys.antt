-- ===== src/Statedump/Keys.antt =====
-- The keys that src/side.c gives to tracers.
use libside.Common.{
  ℕ, zero, suc, ◌+◌, ◌^◌, ◌%◌, ◌≤◌, ◌<◌, ◌≡◌, ◌≢◌, refl, ap, ◌∙◌, false, Option, none, some, List,
  [], ◌∷◌, arith, ◌==◌,
}
use libside.Callback.{SideError, error_ok, nomem}
use libside.Statedump.{tracer_request_key, reserved_range_end}

-- The answers of `n` requests for a key, one after the other, and the counter they leave.
unfoldable pub request_keys : ℕ → ℕ → List (Option ℕ × SideError) × ℕ
unfolding tracer_request_key
request_keys zero next = ([], next)
request_keys (suc n) next =
    let (key, e, next') = tracer_request_key next in
    let (answers, last) = request_keys n next' in ((key, e) ∷ answers, last)

-- `n` consecutive keys.
abbrev pub granted : ℕ → ℕ → List (Option ℕ × SideError)
granted zero first = []
granted (suc n) first = (some first, error_ok) ∷ granted n (first + 1)

abbrev pub refused : ℕ → List (Option ℕ × SideError)
refused zero = []
refused (suc n) = (none, nomem) ∷ refused n

abbrev before :
    (Option ℕ × SideError) → List (Option ℕ × SideError) × ℕ → List (Option ℕ × SideError) × ℕ
before a (answers, last) = (a ∷ answers, last)

request_keys-suc :
    (n first : ℕ)
    → first ≢ 0
    → request_keys (suc n) first
      ≡ before (some first, error_ok) (request_keys n ((first + 1) % 2 ^ 64))
unfolding request_keys tracer_request_key
request_keys-suc n first some_key =
    let some_first : (first == 0) ≡ false = ground arith in rw some_first refl

granted-from :
    (n first : ℕ)
    → first ≢ 0
    → first < 2 ^ 64
    → first + n ≤ 2 ^ 64
    → request_keys n first ≡ (granted n first, (first + n) % 2 ^ 64)
unfolding request_keys
granted-from zero first some_key small room =
    let e : (first + 0) % 2 ^ 64 ≡ first = omega arith in rw e refl
granted-from (suc zero) first some_key small room = request_keys-suc zero first some_key
granted-from (suc (suc n)) first some_key small room =
    let next : (first + 1) % 2 ^ 64 ≡ first + 1 = omega arith in
    let rest = granted-from (suc n) (first + 1) (omega arith) (omega arith) (omega arith) in
    let last : (first + 1 + suc n) % 2 ^ 64 ≡ (first + suc (suc n)) % 2 ^ 64 = omega arith in
    request_keys-suc (suc n) first some_key
    ∙ ap (λ k. before (some first, error_ok) (request_keys (suc n) k)) next
    ∙ ap (before (some first, error_ok)) rest
    ∙ ap (λ l. (granted (suc (suc n)) first, l)) last

-- The requests for a key, from the first of a program on, are answered by consecutive keys, from the
-- end of the reserved range to the largest number of 64 bits, so that no two are the same.
pub request_keys-granted :
    (n : ℕ)
    → reserved_range_end + n ≤ 2 ^ 64
    → request_keys n reserved_range_end
      ≡ (granted n reserved_range_end, (reserved_range_end + n) % 2 ^ 64)
request_keys-granted n room = granted-from n reserved_range_end (omega arith) (omega arith) room

-- Once the counter has wrapped around to 0, every request for a key is refused with "nomem".
pub request_keys-refused : (n : ℕ) → request_keys n 0 ≡ (refused n, 0)
unfolding request_keys tracer_request_key
request_keys-refused zero = refl
request_keys-refused (suc n) = rw (request_keys-refused n) refl
