-- ===== src/Lib.antt =====
-- libside: the library between instrumented applications and the tracers that record their events.
--
-- An application declares events and registers them (src/side.c); a tracer registers for notices of
-- events and attaches callbacks to an event; a call of the event reaches the callbacks in its array,
-- under the read side of RCU (src/rcu.h), while registrations replace the array and wait for a grace
-- period (src/rcu.c) before they free the old one. The lists of handles are rings (src/list.h,
-- src/rculist.h). A tracer can ask for a state dump, and decodes arguments with a visitor
-- (src/visit-arg-vec.c).
--
-- Common     the names that the modules share: tests on numbers, lists, and the outcome of a C
--            function (a value, abort() or an invalid memory access).
-- Ring       src/list.h, src/rculist.h: `side_list_insert_node_tail` is `insert_node_tail`, and so
--            on; links are functions of addresses. The loops run on fuel: Ring/Laws shows how much
--            is enough.
-- Callback   src/side.c, the array of callbacks of an event, byte by byte (Callback/Bytes has
--            calloc, memcpy and free): `_side_tracer_callback_register` is `callback_register`,
--            `_side_tracer_callback_unregister` is `callback_unregister`,
--            `side_event_remove_callbacks` is `remove_callbacks`. The machine is 64-bit and little
--            endian; `nr_callbacks` and the number of entries asked for wrap at 2^32, `enabled` at
--            2^64. A walk over the array is bounded by the entries of its block, beyond which is a
--            fault.
-- Dispatch   src/side.c, `_side_call` and `_side_call_variadic` as `event_call`.
-- Rcu        src/rcu.h, src/rcu.c: `read_begin`, `read_end`, `check_active_readers`, `gp_init`; Rcu/Grace
--            has `side_rcu_wait_grace_period` one memory access at a time, interleaved with any
--            number of readers.
-- Registry   src/side.c: initialization and end, handles of events and tracers, and the entry points
--            for callbacks; they use Callback, Dispatch and Rcu.
-- Statedump  src/side.c: requests for state dumps, and the keys of tracers.
-- Agent      src/side.c: the agent thread that runs state dumps (`statedump_agent_func`), the
--            registration of handles that starts and ends it, and the fork handlers that pause it,
--            as the steps of one process, interleaved as they may be. It uses Statedump. A tracer's
--            request or cancellation returns with `side_statedump_lock` held; its step here lets the
--            others go on, and `unlocks` tells such steps from the rest.
-- Visit      src/visit-arg-vec.c: `type_visitor_event` and `side_visit_type` (Visit/Static),
--            `visit_gather_type` (Visit/Gather), `visit_dynamic_type`, `ensure_types_compatible`
--            (Visit/Labels) and `tracer_load_integer_value` as `load_integer_value`
--            (Visit/Integers), on a little-endian machine. Types, arguments and calls to a tracer
--            are data (Visit/Types, Visit/Args, Visit/Calls); a walk is the sequence of its calls.
--            The memory that gather types read is a limit and bytes below it, and the limit bounds
--            the search for the end of a string. Visit/Values says what values an event carries.
-- Description
--            src/visit-description.c: `description_visitor_event` and what it calls, on the types
--            of Visit/Types.
-- Cpus       src/smp.c: `get_possible_cpus_array_len` and what it calls, for any answers of the system.
-- Tracer     src/tracer.c, the example tracer: its conversions of integers to text (Tracer/Digits),
--            attributes (Tracer/Attributes), integers (Tracer/Integers), enumerations (Tracer/Enums),
--            and what it prints when Visit/Static calls it (Tracer/Context, Tracer/Printing) and when
--            Description does (Tracer/Describing). Text is a list of pieces, one for each conversion
--            of printf() (Tracer/Output). Bits are counted down from the width of a word, and a range
--            of bits from its length, so that the loops end by themselves. What the arguments and the
--            types of Visit do not hold (attributes, mappings, the names of the event, the rest of a
--            type's descriptor, the string that a value points to) is an argument of Tracer/Values,
--            Tracer/Printing and Tracer/Describing, which each call of a walk has its own of; iconv()
--            and the floating-point types that are compiled in are arguments too.
--
-- What the system answers (calloc() and its failures, the CPU number, whether rseq and membarrier are
-- available) is an argument of the functions. A function of a tracer or an application is known by
-- what it is called with and, for a visitor, by what it passes on.
--
-- Not modelled: the futex that puts the updater to sleep, the hardware's memory orders below
-- sequential consistency, the wait of a registration for its first dump, the answers of src/tracer.c to
-- notices of events, and the macros of include/side, which build constants at compile time.
pub mod Common
pub mod Ring
pub mod Callback
pub mod Dispatch
pub mod Rcu
pub mod Registry
pub mod Visit
pub mod Agent
pub mod Description
pub mod Cpus
pub mod Tracer
pub mod Statedump
