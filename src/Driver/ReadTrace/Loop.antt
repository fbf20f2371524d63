-- ===== src/Driver/ReadTrace/Loop.antt =====
-- The loop of `read_trace` over the lines of any file.
use malloc_for_c.Prelude.{
  ℕ, zero, suc, ◌+◌, ◌≤◌, ◌<◌, ◌≡◌, subst, inl, inr, List, ◌∷◌, length, arith, ltb-true, ltb-false,
  ==-true, ==-false, eq_cases, lt_cases,
}
use malloc_for_c.Driver.{TraceOp}
use malloc_for_c.Driver.Scan.{scan_word}
use malloc_for_c.Driver.Scan.Length.{Scanned-cases, Consumes, scan_word-Consumes}
use malloc_for_c.Driver.ReadTrace.{
  ReadResult, done, unix_error, app_error, assert_failed, out_of_bounds, out_of_fuel, Vars,
  read_request, read_ops, ◌>>=◌,
}
use malloc_for_c.Driver.ReadTrace.Lines.{
  signed, AtMost, AtMost-more, AllAtMost, read_request_ends, line_cases,
}

-- What the lines come to, from the request `i` on.
abbrev pub LinesEnd : ℕ → ℕ → ℕ → ReadResult (List TraceOp × ℕ × ℕ) → Type 0
LinesEnd num_ops i most (done (ops, m, last)) =
    (last ≡ i + length ops) × (signed most ≤ signed m) × AllAtMost m ops
LinesEnd num_ops i most unix_error = Unit {0}
LinesEnd num_ops i most app_error = Unit {0}
LinesEnd num_ops i most assert_failed = Unit {0}
LinesEnd num_ops i most out_of_bounds = num_ops ≤ i
LinesEnd num_ops i most out_of_fuel = ⊥

-- One line and those behind it.
lines_end :
    (num_ops i most : ℕ) (x : TraceOp) (m : ℕ) (r : ReadResult (List TraceOp × ℕ × ℕ))
    → signed most ≤ signed m
    → AtMost m x.type x.index
    → suc i < num_ops
    → LinesEnd num_ops (suc i) m r
    → LinesEnd num_ops i most (r >>= λ y. done (x ∷ y.0, y.1, y.2))
lines_end num_ops i most x m (done (ops, m', last)) le at lt (count, le', all) =
    (omega arith, omega arith, (AtMost-more m m' x.type x.index le' at, all))
lines_end num_ops i most x m unix_error le at lt h = tt
lines_end num_ops i most x m app_error le at lt h = tt
lines_end num_ops i most x m assert_failed le at lt h = tt
lines_end num_ops i most x m out_of_bounds le at lt h = absurd (omega arith)
lines_end num_ops i most x m out_of_fuel le at lt h = absurd h

pub read_ops_end :
    (fuel : ℕ) (old : ℕ → ℕ) (num_ops i : ℕ) (v : Vars) (s : List ℕ)
    → length s < fuel
    → LinesEnd num_ops i v.max_index (read_ops fuel old num_ops i v s)
unfolding read_ops
read_ops_end zero old num_ops i v s enough = absurd (omega arith)
read_ops_end (suc fuel) old num_ops i v s enough =
    let word = scan_word-Consumes s in
    elim (Scanned-cases (scan_word s)) [
      | inl e ↦ rw (read_ops, e) (omega arith, omega arith, tt)
      | inr (inl (rest, e)) ↦ absurd (subst (Consumes (length s)) e word)
      | inr (inr (c, rest, e)) ↦
          let le : length rest < length s = subst (Consumes (length s)) e word in
          elim (line_cases v (length rest) (read_request c (old i) v rest)
            (read_request_ends c (old i) v rest)) [
              | inl f ↦ rw (read_ops, e, f) tt
              | inr (inl f) ↦ rw (read_ops, e, f) tt
              | inr (inr (inl f)) ↦ rw (read_ops, e, f) tt
              | inr (inr (inr (x, v', rest', f, (le', up, at)))) ↦ elim (lt_cases i num_ops) [
                | inr full ↦ rw (read_ops, e, f, ltb-false i num_ops full) full
                | inl room ↦ elim (eq_cases (suc i) num_ops) [
                  | inl last ↦
                      rw (read_ops, e, f, ltb-true i num_ops room, ==-true (suc i) num_ops last)
                        (omega arith, up, (at, tt))
                  | inr more ↦
                      rw (read_ops, e, f, ltb-true i num_ops room, ==-false (suc i) num_ops more)
                        (lines_end num_ops i v.max_index x v'.max_index _ up at (omega arith)
                          (read_ops_end fuel old num_ops (suc i) v' rest' (omega arith)))
                ]
              ]
            ]
    ]
