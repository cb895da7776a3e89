-- ===== src/Replica/Backoff/Tests.antt =====
-- The backoff at concrete inputs.
use novig_take_home.Base.{◌≡◌, refl, arith}
use novig_take_home.Base.Int.{pos, add64, int64, ◌+ℤ◌}
use novig_take_home.Replica.Backoff.{exponential_backoff_duration, backoff_after, doubling, half}
use novig_take_home.Replica.Backoff.Growth.{
  capped, first_delay, cap_delay, exponential_backoff_duration_lem,
}

-- 500 ms doubled three times, and the cap of 5 s on the fourth.
third :
    exponential_backoff_duration (pos 500_000_000) (pos 5_000_000_000) (pos 3) ≡ pos 4_000_000_000
unfolding exponential_backoff_duration backoff_after doubling half add64 int64 ◌+ℤ◌
third = refl

fourth :
    exponential_backoff_duration (pos 500_000_000) (pos 5_000_000_000) (pos 4) ≡ pos 5_000_000_000
unfolding exponential_backoff_duration backoff_after doubling half add64 int64 ◌+ℤ◌
fourth = refl

exponential_backoff_duration_example :
    exponential_backoff_duration (pos 500_000_000) (pos 5_000_000_000) (pos 70)
    ≡ pos (
        capped 70 (first_delay (pos 500_000_000)) (cap_delay (pos 500_000_000) (pos 5_000_000_000)))
exponential_backoff_duration_example =
    exponential_backoff_duration_lem (pos 500_000_000) (pos 5_000_000_000) (pos 70) (omega arith)
      (omega arith)
