-- ===== src/Tracer/Context.antt =====
-- `struct print_ctx` of src/tracer.c: how deep the parts are nested that are being printed, and how many
-- items have been printed at each depth.
use libside.Common.{ℕ, suc, ◌-◌, ◌==◌, leb, if◌then◌else◌, Outcome, ok, aborted}

abbrev pub max_nesting : ℕ
max_nesting = 32

-- The array of MAX_NESTING numbers is a function.
pub record PrintCtx : Type 0 where
  pub nesting : ℕ
  pub item_nr : ℕ → ℕ

abbrev pub empty_ctx : PrintCtx
empty_ctx = record { nesting = 0; item_nr = λ i. 0 }

abbrev set_item_nr : (ℕ → ℕ) → (i n : ℕ) → ℕ → ℕ
set_item_nr item_nr i n j = if j == i then n else item_nr j

-- The test comes before the write, which is so within the array.
unfoldable pub push_nesting : PrintCtx → Outcome PrintCtx
push_nesting ctx =
    if leb max_nesting (suc ctx.nesting)
    then aborted
    else ok (record {
      nesting = suc ctx.nesting;
      item_nr = set_item_nr ctx.item_nr (suc ctx.nesting) 0;
    })

unfoldable pub pop_nesting : PrintCtx → Outcome PrintCtx
pop_nesting ctx =
    if ctx.nesting == 0
    then aborted
    else ok (record { nesting = ctx.nesting - 1; item_nr = set_item_nr ctx.item_nr ctx.nesting 0 })

abbrev pub get_nested_item_nr : PrintCtx → ℕ
get_nested_item_nr ctx = ctx.item_nr ctx.nesting

abbrev pub inc_nested_item_nr : PrintCtx → PrintCtx
inc_nested_item_nr ctx = record ctx {
  item_nr = set_item_nr ctx.item_nr ctx.nesting (suc (get_nested_item_nr ctx));
}
