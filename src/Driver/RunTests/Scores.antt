-- ===== src/Driver/RunTests/Scores.antt =====
-- `run_tests` of mdriver.c: what a file holds, and what is recorded of it.
use malloc_for_c.Prelude.{ℕ, ◌+◌, ◌^◌, ◌≤◌, ◌<◌, ◌≡◌, true, some, List, [], ◌∷◌, length}
use malloc_for_c.Driver.{TraceOp}
use malloc_for_c.Driver.Balanced.{Balanced, demand}
use malloc_for_c.Driver.Util.Usage.{peak}
use malloc_for_c.Driver.ReadTrace.{Header}
use malloc_for_c.Driver.ReadTrace.Print.{print_trace, as_read, highest, AllLines}
use malloc_for_c.Driver.RunTests.{TraceFile, Stats}

-- The file is a printed trace that is balanced, and there is space for it between the two addresses.
pub record HoldsTrace {A : Type 0} (low high : ℕ) (f : TraceFile A) : Type 0 where
  pub header : Header
  pub first : TraceOp
  pub others : List TraceOp
  pub printed : f.contents ≡ some (print_trace header (first ∷ others))
  pub weight : header.weight < 2
  pub ignore : header.ignore_ranges < 2
  pub ids : header.num_ids < 2 ^ 31
  pub num : header.num_ops < 2 ^ 31
  pub all : length (first ∷ others) ≡ header.num_ops
  pub most : highest 0 (first ∷ others) + 1 ≡ header.num_ids
  pub lines : AllLines (first ∷ others)
  pub balanced : Balanced header.num_ids [] [] (as_read f.old_sizes 0 (first ∷ others))
  pub room : low + 40 + demand (as_read f.old_sizes 0 (first ∷ others)) ≤ high

abbrev pub AllHold : {A : Type 0} → ℕ → ℕ → List (TraceFile A) → Type 0
AllHold low high [] = Unit {0}
AllHold low high (f ∷ files) = HoldsTrace low high f × AllHold low high files

-- What is recorded of a file: it is valid; the utilization is that of the requests; and the time is
-- one of those that were measured.
pub record Scored {A S : Type 0} (seconds : A → S) (low high : ℕ) (f : TraceFile A)
    (b : HoldsTrace low high f) (x : Stats S) : Type 0 where
  pub weight : x.weight ≡ b.header.weight
  pub ops : x.ops ≡ length (b.first ∷ b.others)
  pub valid : x.valid ≡ true
  pub heap_size : ℕ
  pub util : x.util ≡ some (peak [] (as_read f.old_sizes 0 (b.first ∷ b.others)), heap_size)
  pub larger : peak [] (as_read f.old_sizes 0 (b.first ∷ b.others)) + 40 ≤ heap_size
  pub fits : low + heap_size ≤ high
  pub sample : ℕ
  pub secs : x.secs ≡ some (seconds (f.plain sample))

abbrev pub AllScored :
    {A S : Type 0} (seconds : A → S) (low high : ℕ) (files : List (TraceFile A))
    → AllHold low high files
    → List (Stats S)
    → Type 0
AllScored seconds low high [] b [] = Unit {0}
AllScored seconds low high [] b (x ∷ xs) = ⊥
AllScored seconds low high (f ∷ files) b [] = ⊥
AllScored seconds low high (f ∷ files) b (x ∷ xs) =
    Scored seconds low high f b.0 x × AllScored seconds low high files b.1 xs
