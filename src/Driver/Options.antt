-- ===== src/Driver/Options.antt =====
-- The options of mdriver.c: the loop at the start of `main`. What `getopt` gives is an argument, and
-- so is `atoi`; paths are lists of codes. The C library is taken to have memory for the names.
pub mod Given
pub mod Last
use malloc_for_c.Prelude.{
  ℕ, suc, ◌+◌, Bool, true, false, Option, none, some, List, [], ◌∷◌, ◌++◌, length, leb, ◌==◌,
  if◌then◌else◌,
}

pub data Arg : Type 0 where
  f_arg : List ℕ → Arg
  c_arg : List ℕ → Arg
  t_arg : List ℕ → Arg
  l_arg : Arg
  d_arg : List ℕ → Arg
  expensive_arg : Arg
  h_arg : Arg
  -- an option that is not known, or one without its argument
  bad_arg : Arg

-- `tracefile` is the first element of `tracefiles`, or none while that is NULL; `debug_mode` is an
-- `int`.
pub record Options : Type 0 where
  pub num_tracefiles : ℕ
  pub tracefile : Option (List ℕ)
  pub tracedir : List ℕ
  pub onetime_flag : Bool
  pub run_libc : Bool
  pub debug_mode : ℕ

abbrev pub maxline : ℕ
maxline = 1024

abbrev pub here : List ℕ
here = b'.' ∷ b'/' ∷ []

unfoldable pub ends_in_slash : List ℕ → Bool
ends_in_slash [] = false
ends_in_slash (c ∷ []) = c == b'/'
ends_in_slash (c ∷ d ∷ s) = ends_in_slash (d ∷ s)

-- The values before the loop, with TRACEDIR "./traces/".
abbrev pub start : Options
start = record {
  num_tracefiles = 0;
  tracefile = none;
  tracedir = here ++ b't' ∷ b'r' ∷ b'a' ∷ b'c' ∷ b'e' ∷ b's' ∷ b'/' ∷ [];
  onetime_flag = false;
  run_libc = false;
  debug_mode = 1;
}

-- How the loop ends.
pub data OptionsEnd : Type 0 where
  done : Options → OptionsEnd
  exit_0 : OptionsEnd
  exit_1 : OptionsEnd
  -- an access outside of the array `tracedir`
  out_of_bounds : OptionsEnd

-- The cases -f and -c. The path "./" is copied into `tracedir`.
abbrev pub use_file : List ℕ → Options → Options
use_file path o = record o { num_tracefiles = 1; tracefile = some path; tracedir = here }

-- The case -t. `tracedir` takes the path with its zero byte; then the byte before the zero is read.
unfoldable pub use_dir : List ℕ → Options → OptionsEnd
unfolding ends_in_slash
use_dir path o =
    if o.num_tracefiles == 1
    then done o
    else if leb maxline (length path)
    then out_of_bounds
    else if length path == 0
    then out_of_bounds
    else if ends_in_slash path
    then done (record o { tracedir = path })
    else if leb maxline (length path + 1)
    then out_of_bounds
    else done (record o { tracedir = path ++ b'/' ∷ [] })

-- The switch.
unfoldable pub read_option : (List ℕ → ℕ) → Arg → Options → OptionsEnd
unfolding use_dir
read_option atoi (f_arg path) o = done (use_file path o)
read_option atoi (c_arg path) o = done (use_file path (record o { onetime_flag = true }))
read_option atoi (t_arg path) o = use_dir path o
read_option atoi l_arg o = done (record o { run_libc = true })
read_option atoi (d_arg text) o = done (record o { debug_mode = atoi text })
read_option atoi expensive_arg o = done (record o { debug_mode = 2 })
read_option atoi h_arg o = exit_0
read_option atoi bad_arg o = exit_1

-- The loop.
unfoldable pub read_options : (List ℕ → ℕ) → List Arg → Options → OptionsEnd
unfolding read_option
read_options atoi [] o = done o
read_options atoi (x ∷ args) o = elim (read_option atoi x o) [
  | done o' ↦ read_options atoi args o'
  | exit_0 ↦ exit_0
  | exit_1 ↦ exit_1
  | out_of_bounds ↦ out_of_bounds
]
