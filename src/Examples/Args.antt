-- ===== src/Examples/Args.antt =====
-- mdriver.c: command lines.
use malloc_for_c.Prelude.{◌≡◌, refl, true, List, [], ◌∷◌, length, arith}
use malloc_for_c.Driver.Options.{
  Arg, f_arg, c_arg, t_arg, l_arg, d_arg, start, ends_in_slash, done, out_of_bounds, read_options,
}
use malloc_for_c.Driver.Options.Given.{described}
use malloc_for_c.Driver.Options.Last.{read_options_lem}
use malloc_for_c.Examples.Traces.{codes}

abbrev args : List Arg
args =
    t_arg (codes "traces")
    ∷ l_arg
    ∷ c_arg (codes "a.rep")
    ∷ d_arg (codes "2")
    ∷ f_arg (codes "b.rep")
    ∷ []

-- With an empty path, the byte before the array is read.
empty_path : read_options length (t_arg [] ∷ []) start ≡ out_of_bounds
unfolding read_options
empty_path = refl

-- The directory is ignored behind a file.
late_path :
    read_options length (f_arg (codes "b") ∷ t_arg [] ∷ []) start
    ≡ read_options length (f_arg (codes "b") ∷ []) start
unfolding read_options
late_path = refl

read_options_lem_example :
    (read_options length args start ≡ done (described length args start))
    × (ends_in_slash (described length args start).tracedir ≡ true)
read_options_lem_example =
    read_options_lem length args ((omega arith, omega arith), (tt, (tt, (tt, (tt, tt)))))
