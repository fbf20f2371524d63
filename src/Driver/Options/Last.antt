-- ===== src/Driver/Options/Last.antt =====
-- The loop over the options of mdriver.c.
use malloc_for_c.Prelude.{
  ℕ, ◌+◌, ◌<◌, ◌≡◌, refl, ap, ◌∙◌, inl, inr, Bool, true, false, Option, none, some, List, [], ◌∷◌,
  ◌++◌, length, leb-false, ◌==◌, ==-false, arith, Bool-cases,
}
use malloc_for_c.Driver.Options.{
  Arg, f_arg, c_arg, t_arg, l_arg, d_arg, expensive_arg, h_arg, bad_arg, Options, start, maxline,
  ends_in_slash, done, use_file, use_dir, read_option, read_options,
}
use malloc_for_c.Driver.Options.Given.{
  later, with_slash, file_of, dir_of, mode_of, last_of, place, describe, described, AllUsable,
}

use_dir-done :
    (path : List ℕ) (o : Options)
    → 0 < length path
    → length path + 1 < maxline
    → (o.num_tracefiles == 1) ≡ false
    → use_dir path o ≡ done (record o { tracedir = with_slash path })
unfolding use_dir
use_dir-done path o pos fits several = elim (Bool-cases (ends_in_slash path)) [
  | inl slash ↦ rw (
    use_dir,
    several,
    leb-false maxline (length path) (omega (arith, fits)),
    ==-false (length path) 0 (omega (arith, pos)),
    slash,
  )
  | inr bare ↦ rw (
    use_dir,
    several,
    leb-false maxline (length path) (omega (arith, fits)),
    ==-false (length path) 0 (omega (arith, pos)),
    bare,
    leb-false maxline (length path + 1) fits,
  )
]

use_dir-ignored :
    (path : List ℕ) (o : Options) → (o.num_tracefiles == 1) ≡ true → use_dir path o ≡ done o
unfolding use_dir
use_dir-ignored path o single = rw (use_dir, single)

-- What follows decides as before, with the first option's value behind.
describe-file :
    (path : List ℕ) (file dir : Option (List ℕ)) (mode : Option ℕ) (once libc : Bool) (o : Options)
    → describe file dir mode once libc (use_file path o)
      ≡ describe (later file (some path)) dir mode once libc o
describe-file path none dir mode once libc o = refl
describe-file path (some p) dir mode once libc o = refl

describe-once :
    (file dir : Option (List ℕ)) (mode : Option ℕ) (once libc : Bool) (o : Options)
    → describe file dir mode once libc (record o { onetime_flag = true })
      ≡ describe file dir mode true libc o
describe-once none dir mode false libc o = refl
describe-once none dir mode true libc o = refl
describe-once (some p) dir mode false libc o = refl
describe-once (some p) dir mode true libc o = refl

describe-libc :
    (file dir : Option (List ℕ)) (mode : Option ℕ) (once libc : Bool) (o : Options)
    → describe file dir mode once libc (record o { run_libc = true })
      ≡ describe file dir mode once true o
describe-libc none dir mode once false o = refl
describe-libc none dir mode once true o = refl
describe-libc (some p) dir mode once false o = refl
describe-libc (some p) dir mode once true o = refl

describe-mode :
    (n : ℕ) (file dir : Option (List ℕ)) (mode : Option ℕ) (once libc : Bool) (o : Options)
    → describe file dir mode once libc (record o { debug_mode = n })
      ≡ describe file dir (later mode (some n)) once libc o
describe-mode n none dir none once libc o = refl
describe-mode n none dir (some m) once libc o = refl
describe-mode n (some p) dir none once libc o = refl
describe-mode n (some p) dir (some m) once libc o = refl

describe-dir :
    (path : List ℕ) (file dir : Option (List ℕ)) (mode : Option ℕ) (once libc : Bool) (o : Options)
    → (o.num_tracefiles == 1) ≡ false
    → describe file dir mode once libc (record o { tracedir = path })
      ≡ describe file (later dir (some path)) mode once libc o
describe-dir path none none mode once libc o several = rw several refl
describe-dir path none (some d) mode once libc o several = rw several refl
describe-dir path (some p) dir mode once libc o several = refl

describe-ignored :
    (path : List ℕ) (file dir : Option (List ℕ)) (mode : Option ℕ) (once libc : Bool) (o : Options)
    → (o.num_tracefiles == 1) ≡ true
    → describe file dir mode once libc o ≡ describe file (later dir (some path)) mode once libc o
describe-ignored path none dir mode once libc o single = rw single refl
describe-ignored path (some p) dir mode once libc o single = refl

describe-nothing : (o : Options) → o ≡ describe none none none false false o
describe-nothing o = elim (Bool-cases (o.num_tracefiles == 1)) [
  | inl single ↦ rw single refl
  | inr several ↦ rw several refl
]

read_options-described :
    (atoi : List ℕ → ℕ) (args : List Arg) (o : Options)
    → AllUsable args
    → read_options atoi args o ≡ done (described atoi args o)
unfolding read_options read_option
read_options-described atoi [] o h = ap (λ w. done w) (describe-nothing o)
read_options-described atoi (f_arg path ∷ args) o h =
    read_options-described atoi args (use_file path o) h.1
    ∙ ap (λ w. done w) (describe-file path _ _ (last_of (mode_of atoi) args) _ _ o)
read_options-described atoi (c_arg path ∷ args) o h =
    read_options-described atoi args (use_file path (record o { onetime_flag = true })) h.1
    ∙ ap (λ w. done w)
        (describe-file path _ _ (last_of (mode_of atoi) args) _ _ (record o { onetime_flag = true })
          ∙ describe-once _ _ (last_of (mode_of atoi) args) _ _ o)
read_options-described atoi (t_arg path ∷ args) o h = elim (Bool-cases (o.num_tracefiles == 1)) [
  | inl single ↦
      rw (read_options, use_dir-ignored path o single)
        (read_options-described atoi args o h.1
          ∙ ap (λ w. done w)
              (describe-ignored (with_slash path) _ _ (last_of (mode_of atoi) args) _ _ o single))
  | inr several ↦
      rw (read_options, use_dir-done path o h.0.0 h.0.1 several)
        (read_options-described atoi args (record o { tracedir = with_slash path }) h.1
          ∙ ap (λ w. done w)
              (describe-dir (with_slash path) _ _ (last_of (mode_of atoi) args) _ _ o several))
]
read_options-described atoi (l_arg ∷ args) o h =
    read_options-described atoi args (record o { run_libc = true }) h.1
    ∙ ap (λ w. done w) (describe-libc _ _ (last_of (mode_of atoi) args) _ _ o)
read_options-described atoi (d_arg text ∷ args) o h =
    read_options-described atoi args (record o { debug_mode = atoi text }) h.1
    ∙ ap (λ w. done w) (describe-mode (atoi text) _ _ (last_of (mode_of atoi) args) _ _ o)
read_options-described atoi (expensive_arg ∷ args) o h =
    read_options-described atoi args (record o { debug_mode = 2 }) h.1
    ∙ ap (λ w. done w) (describe-mode 2 _ _ (last_of (mode_of atoi) args) _ _ o)
read_options-described atoi (h_arg ∷ args) o h = absurd h.0
read_options-described atoi (bad_arg ∷ args) o h = absurd h.0

ends_in_slash-append : (path : List ℕ) → ends_in_slash (path ++ b'/' ∷ []) ≡ true
unfolding ends_in_slash
ends_in_slash-append [] = refl
ends_in_slash-append (c ∷ []) = refl
ends_in_slash-append (c ∷ d ∷ path) = ends_in_slash-append (d ∷ path)

with_slash-ends : (path : List ℕ) → ends_in_slash (with_slash path) ≡ true
with_slash-ends path = elim (Bool-cases (ends_in_slash path)) [
  | inl slash ↦ rw (slash, slash)
  | inr bare ↦ rw bare (ends_in_slash-append path)
]

-- A directory, if there is one, ends in a slash.
abbrev Slashed : Option (List ℕ) → Type 0
Slashed none = Unit {0}
Slashed (some dir) = ends_in_slash dir ≡ true

later-Slashed :
    (dir : Option (List ℕ)) (path : List ℕ)
    → Slashed dir
    → Slashed (later dir (some (with_slash path)))
later-Slashed none path h = with_slash-ends path
later-Slashed (some d) path h = h

last_of-Slashed : (args : List Arg) → Slashed (last_of dir_of args)
last_of-Slashed [] = tt
last_of-Slashed (f_arg path ∷ args) = last_of-Slashed args
last_of-Slashed (c_arg path ∷ args) = last_of-Slashed args
last_of-Slashed (t_arg path ∷ args) =
    later-Slashed (last_of dir_of args) path (last_of-Slashed args)
last_of-Slashed (l_arg ∷ args) = last_of-Slashed args
last_of-Slashed (d_arg text ∷ args) = last_of-Slashed args
last_of-Slashed (expensive_arg ∷ args) = last_of-Slashed args
last_of-Slashed (h_arg ∷ args) = last_of-Slashed args
last_of-Slashed (bad_arg ∷ args) = last_of-Slashed args

place-slash :
    (file dir : Option (List ℕ)) → Slashed dir → ends_in_slash (place file dir start) ≡ true
unfolding ends_in_slash
place-slash none none h = refl
place-slash none (some d) h = h
place-slash (some path) dir h = refl

-- Where no option asks for help or is unknown, and each path for -t is not empty and has less than
-- 1023 characters, the loop over the options stays inside `tracedir` and ends with what the last
-- options give. That is the file of the last -f or -c, in "./"; without a file the directory of the
-- last -t, with a slash added if it has none; a correctness check only if there is a -c, the C
-- library's run if there is a -l, and the debug mode of the last -d or -D. The directory ends with
-- a slash.
pub read_options_lem :
    (atoi : List ℕ → ℕ) (args : List Arg)
    → AllUsable args
    → (read_options atoi args start ≡ done (described atoi args start))
      × (ends_in_slash (described atoi args start).tracedir ≡ true)
read_options_lem atoi args h = (
  read_options-described atoi args start h,
  place-slash (last_of file_of args) (last_of dir_of args) (last_of-Slashed args),
)
