-- ===== src/Fsecs.antt =====
-- fsecs.c: the parameters of fcyc.c, and seconds from cycles, with USE_FCYC as in config.h.
pub mod Timed
use malloc_for_c.Prelude.{ℕ, ◌*◌, ◌^◌, Bool, true, false, Option, none, some}
use malloc_for_c.Fcyc.{
  Order, Params, Outcome, not_set, out_of_fuel, timed, set_fcyc_k, set_fcyc_maxsamples,
  set_fcyc_epsilon, set_fcyc_compensate, set_fcyc_clear_cache, set_fcyc_cache_block, fcyc,
}
use malloc_for_c.Fcyc.Cache.{Buffer, set_fcyc_cache_size}

module _ {A : Type 0} where
  -- `close` is the test with `epsilon` 0.01. `Mhz`, which comes from /proc/cpuinfo, is an argument of
  -- `fsecs`.
  unfoldable pub init_fsecs : (A → A → Bool) → Params A × Option Buffer → Params A × Option Buffer
  unfolding set_fcyc_k set_fcyc_maxsamples set_fcyc_epsilon set_fcyc_compensate set_fcyc_clear_cache
      set_fcyc_cache_block set_fcyc_cache_size
  init_fsecs close (p, buf) =
      let p₁ = set_fcyc_clear_cache true (
        set_fcyc_compensate false
          (set_fcyc_epsilon close (set_fcyc_maxsamples 100 (set_fcyc_k 10 p)))) in
      let (p₂, buf') = set_fcyc_cache_size (2 ^ 19) (p₁, buf) in (set_fcyc_cache_block 64 p₂, buf')

  -- `seconds` divides by `Mhz * 1e6`.
  unfoldable pub fsecs :
      {S : Type 0} → Order A → (A → S) → Params A → A → (ℕ → A) → (ℕ → A) → Option (S × ℕ)
  fsecs o seconds p nil comp plain = elim (fcyc o p nil comp plain) [
    | not_set ↦ none
    | out_of_fuel ↦ none
    | timed cycles samples ↦ some (seconds cycles, samples)
  ]
