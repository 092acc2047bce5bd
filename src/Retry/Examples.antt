-- ===== src/Retry/Examples.antt =====
-- An expression that succeeds the third time, and the theorem about retries on it.
use switchboard_sdk.Prelude.{Outcome, ℕ, refl, ltb, err, if◌then◌else◌, ok, ◌≡◌}
use switchboard_sdk.Retry.{retry_loop, retry, finished}

abbrev third_time : ℕ → Outcome ℕ ℕ
third_time n = if ltb n 2 then err n else ok 7

retry_runs : (retry third_time 5 ≡ finished (ok 7) 3) × (retry third_time 2 ≡ finished (err 1) 2)
unfolding retry retry_loop
retry_runs = (refl, refl)
