-- ===== src/Driver/ReadTrace/Ends.antt =====
-- `read_trace` of mdriver.c on any file: how it may end.
use malloc_for_c.Prelude.{ℕ, ◌^◌, ◌≤◌, ◌<◌, ◌≡◌, ◌⊎◌, List, [], ◌∷◌, length}
use malloc_for_c.Driver.{OpType, alloc_op, free_op, realloc_op, TraceOp}
use malloc_for_c.Driver.ReadTrace.{
  Header, ReadResult, done, unix_error, app_error, assert_failed, out_of_bounds, out_of_fuel,
}

-- The index of a line for `malloc` or `realloc` is negative, or one of the `num_ids` indices.
abbrev pub Within : ℕ → OpType → ℕ → Type 0
Within num_ids alloc_op index = (2 ^ 31 ≤ index) ⊎ (index < num_ids)
Within num_ids free_op index = Unit {0}
Within num_ids realloc_op index = (2 ^ 31 ≤ index) ⊎ (index < num_ids)

abbrev pub AllWithin : ℕ → List TraceOp → Type 0
AllWithin num_ids [] = Unit {0}
AllWithin num_ids (x ∷ ops) = Within num_ids x.type x.index × AllWithin num_ids ops

-- How `read_trace` may end, for the numbers in front of the requests.
abbrev pub TraceEnds : ReadResult (Header × List ℕ) → ReadResult (Header × List TraceOp) → Type 0
TraceEnds start (done (h, ops)) =
    (h.weight < 2) × (h.ignore_ranges < 2) × (length ops ≡ h.num_ops) × AllWithin h.num_ids ops
TraceEnds start unix_error = Unit {0}
TraceEnds start app_error = Unit {0}
TraceEnds start assert_failed = Unit {0}
TraceEnds start out_of_bounds =
    (h : Header) × (s : List ℕ) × (start ≡ done (h, s)) × (h.num_ops ≡ 0)
TraceEnds start out_of_fuel = ⊥

-- The steps that only return or exit.
abbrev Plain : {A : Type 0} → ReadResult A → Type 0
Plain (done a) = Unit {0}
Plain unix_error = Unit {0}
Plain app_error = Unit {0}
Plain assert_failed = Unit {0}
Plain out_of_bounds = ⊥
Plain out_of_fuel = ⊥
