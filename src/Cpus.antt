-- ===== src/Cpus.antt =====
-- src/smp.c: how many CPUs a per-CPU array must have room for, from what the system says.
--
-- The answers of the system (the reads of a file, the entries of a directory, sysconf()) and the
-- functions strtoul() and strtol() of the C library are arguments. A string is the characters at its
-- positions; a result of -1 is `none`.
pub mod Mask
mod Examples
use libside.Common.{
  ℕ, zero, suc, ◌+◌, ◌-◌, ◌^◌, Bool, true, false, not, ◌&&◌, ◌||◌, Option, none, some, List, [],
  ◌∷◌, ◌++◌, ◌==◌, ltb, leb, if◌then◌else◌, length, get_elem?,
}

abbrev pub int_max : ℕ
int_max = 2 ^ 31 - 1

-- SIDE_CPUMASK_SIZE.
abbrev pub cpumask_size : ℕ
cpumask_size = 4096

-- What read() returns: -1 with EINTR or with another error, or some bytes.
pub data Answer : Type 0 where
  interrupted failed : Answer
  bytes : List ℕ → Answer

-- The loop of `get_cpu_mask_from_sysfs` over the answers of read(), none of which is longer than the
-- room that is left: all that was read, if there is no error.
unfoldable pub read_mask : List Answer → (max_bytes : ℕ) → List ℕ → Option (List ℕ)
read_mask [] max_bytes buf = none
read_mask (interrupted ∷ answers) max_bytes buf = read_mask answers max_bytes buf
read_mask (failed ∷ answers) max_bytes buf = none
read_mask (bytes [] ∷ answers) max_bytes buf = some buf
read_mask (bytes (c ∷ cs) ∷ answers) max_bytes buf =
    let rest = read_mask answers max_bytes (buf ++ c ∷ cs) in
    if ltb (length (buf ++ c ∷ cs)) max_bytes then rest else some (buf ++ c ∷ cs)

-- The buffer, as a string that ends.
abbrev pub terminated : (max_bytes : ℕ) → List ℕ → ℕ → ℕ
terminated max_bytes buf i =
    if suc i == max_bytes then 0 else elim (get_elem? buf i) [ some c ↦ c | none ↦ 0 ]

-- ',' and '-'.
abbrev pub is_separator : ℕ → Bool
is_separator c = (c == 44) || (c == 45)

-- The loop of `get_max_cpuid_from_mask`: where the last number begins.
unfoldable pub last_index : (pmask : ℕ → ℕ) → ℕ → ℕ
last_index pmask zero = 0
last_index pmask (suc i) =
    let rest = last_index pmask i in if is_separator (pmask (suc i)) then suc (suc i) else rest

-- A directory entry: `d_type` is DT_DIR, and `d_name`.
pub record Entry : Type 0 where
  pub is_directory : Bool
  pub d_name : ℕ → ℕ

-- What the system answers to a thread that asks for the number of CPUs.
pub record Answers : Type 0 where
  pub opened : Bool
  pub reads : List Answer
  pub entries : List Entry
  pub configured : ℕ  -- sysconf(_SC_NPROCESSORS_CONF), 0 for an error

-- strtoul() and strtol() in base 10: the value, and how many characters it takes. A negative value of
-- strtol() is `none`.
module _ (strtoul : (ℕ → ℕ) → ℕ × ℕ) (strtol : (ℕ → ℕ) → Option ℕ × ℕ) where
  unfoldable pub get_max_cpuid_from_mask : (pmask : ℕ → ℕ) → (len : ℕ) → Option ℕ
  unfolding last_index
  get_max_cpuid_from_mask pmask len =
      let i = last_index pmask (len - 1) in
      let (cpu_index, taken) = strtoul (λ k. pmask (i + k)) in
      if leb 1 len && (not (taken == 0) && ltb cpu_index int_max) then some cpu_index else none

  -- The number of a directory "cpu<number>".
  abbrev pub cpu_id : Entry → Option ℕ
  cpu_id e =
      let name = e.d_name in
      let (id, taken) = strtol (λ k. name (3 + k)) in
      if e.is_directory
        && ((name 0 == 99)
            && ((name 1 == 112)
                && ((name 2 == 117) && (not (taken == 0) && (name (3 + taken) == 0)))))
      then elim id [ some n ↦ (if ltb n (2 ^ 63 - 1) then some n else none) | none ↦ none ]
      else none

  abbrev pub largest : Option ℕ → Option ℕ → Option ℕ
  largest (some n) (some m) = if ltb m n then some n else some m
  largest none m = m
  largest (some n) none = some n

  -- The loop of `_get_max_cpuid_from_sysfs`.
  unfoldable pub max_entry : List Entry → Option ℕ → Option ℕ
  max_entry [] max_cpuid = max_cpuid
  max_entry (e ∷ es) max_cpuid = max_entry es (largest (cpu_id e) max_cpuid)

  unfoldable pub get_max_cpuid_from_sysfs : List Entry → Option ℕ
  unfolding max_entry
  get_max_cpuid_from_sysfs es = elim (max_entry es none) [
    | some n ↦ (if ltb int_max n then none else some n)
    | none ↦ none
  ]

  -- INT_MAX + 1 is not defined for an int; here it wraps to the least one, which is below what sysconf()
  -- returns.
  unfoldable pub get_num_possible_cpus_fallback : Answers → ℕ
  unfolding get_max_cpuid_from_sysfs
  get_num_possible_cpus_fallback a =
      let from_sysfs : ℕ = elim (get_max_cpuid_from_sysfs a.entries) [
        | some n ↦ (if n == int_max then 0 else suc n)
        | none ↦ 0
      ] in
      if ltb from_sysfs a.configured then a.configured else from_sysfs

  -- `update_possible_cpus_array_len_cache` after the parse of the mask, and after the read of it.
  abbrev pub from_cpuid : Answers → Option ℕ → ℕ
  from_cpuid a (some n) = suc n
  from_cpuid a none = get_num_possible_cpus_fallback a

  abbrev pub from_mask : Answers → Option (List ℕ) → ℕ
  from_mask a (some buf) =
      from_cpuid a (get_max_cpuid_from_mask (terminated cpumask_size buf) (length buf))
  from_mask a none = get_num_possible_cpus_fallback a

  -- The number that it finds, 0 if there is none.
  unfoldable pub update_possible_cpus_array_len_cache : Answers → ℕ
  unfolding get_num_possible_cpus_fallback read_mask get_max_cpuid_from_mask
  update_possible_cpus_array_len_cache a =
      from_mask a (if a.opened then read_mask a.reads cpumask_size [] else none)

  -- The result, which is also what the cache holds from then on.
  unfoldable pub get_possible_cpus_array_len : (cache : ℕ) → Answers → ℕ
  unfolding update_possible_cpus_array_len_cache
  get_possible_cpus_array_len cache a =
      if cache == 0 then update_possible_cpus_array_len_cache a else cache
