-- ===== src/Driver/Options/Given.antt =====
-- The options of mdriver.c: which of those that are given count.
use malloc_for_c.Prelude.{
  ℕ, ◌+◌, ◌<◌, Bool, true, false, ◌||◌, Option, none, some, List, [], ◌∷◌, ◌++◌, length, ◌==◌,
  if◌then◌else◌,
}
use malloc_for_c.Driver.Options.{
  Arg, f_arg, c_arg, t_arg, l_arg, d_arg, expensive_arg, h_arg, bad_arg, Options, here, maxline,
  ends_in_slash,
}

-- A value that is given further on goes first.
abbrev pub later : {A : Type 0} → Option A → Option A → Option A
later a none = a
later none (some b) = some b
later (some a) (some b) = some a

abbrev pub or_else : {A : Type 0} → Option A → A → A
or_else none b = b
or_else (some a) b = a

abbrev pub with_slash : List ℕ → List ℕ
with_slash path = if ends_in_slash path then path else path ++ b'/' ∷ []

abbrev pub file_of : Arg → Option (List ℕ)
file_of (f_arg path) = some path
file_of (c_arg path) = some path
file_of _ = none

abbrev pub dir_of : Arg → Option (List ℕ)
dir_of (t_arg path) = some (with_slash path)
dir_of _ = none

abbrev pub mode_of : (List ℕ → ℕ) → Arg → Option ℕ
mode_of atoi (d_arg text) = some (atoi text)
mode_of atoi expensive_arg = some 2
mode_of atoi _ = none

abbrev pub is_c : Arg → Bool
is_c (c_arg path) = true
is_c _ = false

abbrev pub is_l : Arg → Bool
is_l l_arg = true
is_l _ = false

-- The last value among the arguments, and whether there is one.
abbrev pub last_of : {A : Type 0} → (Arg → Option A) → List Arg → Option A
last_of f [] = none
last_of f (x ∷ args) = later (last_of f args) (f x)

abbrev pub any_of : (Arg → Bool) → List Arg → Bool
any_of f [] = false
any_of f (x ∷ args) = f x || any_of f args

-- The file and the directory, where the file stands in the current directory.
abbrev pub place : Option (List ℕ) → Option (List ℕ) → Options → List ℕ
place none dir o = if o.num_tracefiles == 1 then o.tracedir else or_else dir o.tracedir
place (some path) dir o = here

abbrev pub count_of : Option (List ℕ) → ℕ → ℕ
count_of none n = n
count_of (some path) n = 1

abbrev pub some_or : Option (List ℕ) → Option (List ℕ) → Option (List ℕ)
some_or none b = b
some_or (some path) b = some path

abbrev pub describe : Option (List ℕ) → Option (List ℕ) → Option ℕ → Bool → Bool → Options → Options
describe file dir mode once libc o = record {
  num_tracefiles = count_of file o.num_tracefiles;
  tracefile = some_or file o.tracefile;
  tracedir = place file dir o;
  onetime_flag = once || o.onetime_flag;
  run_libc = libc || o.run_libc;
  debug_mode = or_else mode o.debug_mode;
}

abbrev pub described : (List ℕ → ℕ) → List Arg → Options → Options
described atoi args o =
    describe (last_of file_of args) (last_of dir_of args) (last_of (mode_of atoi) args)
      (any_of is_c args) (any_of is_l args) o

-- The program does not exit, and the paths for -t are neither empty nor too long.
abbrev pub IsUsable : Arg → Type 0
IsUsable (t_arg path) = (0 < length path) × (length path + 1 < maxline)
IsUsable h_arg = ⊥
IsUsable bad_arg = ⊥
IsUsable _ = Unit {0}

abbrev pub AllUsable : List Arg → Type 0
AllUsable [] = Unit {0}
AllUsable (x ∷ args) = IsUsable x × AllUsable args
