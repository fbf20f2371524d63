-- ===== src/Examples/Tests.antt =====
-- mdriver.c: `run_tests` on two files with the same short trace.
use malloc_for_c.Prelude.{ℕ, ◌%◌, false, some, List, [], ◌∷◌}
use malloc_for_c.Driver.{dbg_cheap, alloc_op}
use malloc_for_c.Driver.Balanced.{op}
use malloc_for_c.Driver.ReadTrace.Print.{print_trace}
use malloc_for_c.Driver.RunTests.{TraceFile, Flags}
use malloc_for_c.Examples.Driver.{slower}
use malloc_for_c.Examples.Traces.{junk, fields, requests}

abbrev file : TraceFile ℕ
file = record {
  contents = some (print_trace (fields 1 2 3 0) (op alloc_op 0 100 ∷ requests));
  old_header = junk;
  old_sizes = λ i. 90;
  old_size = 5;
  comp = slower;
  plain = slower;
}

abbrev flags : Flags
flags = record {
  debug_mode = dbg_cheap;
  onetime_flag = false;
  random_data = λ i. i % 256;
  random = λ i. i;
}

abbrev files : List (TraceFile ℕ)
files = file ∷ file ∷ []
