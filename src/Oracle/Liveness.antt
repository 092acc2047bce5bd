-- ===== src/Oracle/Liveness.antt =====
-- When the heartbeat of an oracle is too old.
use switchboard_sdk.Prelude.{zero, suc, ◌/◌, refl, ◌≡◌, Bool, arith, ok, ℕ}
use switchboard_sdk.Prelude.Int.{
  pos_part, fits_signed-FitsSigned, FitsSigned, leb_ℤ, pos, ◌-ℤ◌, ltb_ℤ, negsuc, ℤ, negate,
}
use switchboard_sdk.Feed.{Clock}
use switchboard_sdk.Oracle.{OracleAccountData, is_stale, minutes_of, sub_i64}

pos_part-negate : (n : ℕ) → pos_part (negate n) ≡ 0
pos_part-negate zero = refl
pos_part-negate (suc n) = refl

minutes_of-ltb : (d : ℤ) → ltb_ℤ (pos 30) (minutes_of d) ≡ leb_ℤ (pos 1860) d
unfolding minutes_of
minutes_of-ltb (pos n) = ground arith
minutes_of-ltb (negsuc n) = ground (arith, pos_part-negate (suc n / 60))

-- In either build, with a difference of the times that is an i64, an oracle is stale exactly from
-- 1,860 seconds after its last heartbeat: the minutes are rounded down before they are compared with 30.
pub is_stale_iff :
    (checks : Bool) (oracle : OracleAccountData) (clock : Clock)
    → FitsSigned 63 (clock.unix_timestamp -ℤ oracle.last_heartbeat)
    → is_stale checks oracle clock
      ≡ ok (leb_ℤ (pos 1860) (clock.unix_timestamp -ℤ oracle.last_heartbeat))
unfolding is_stale sub_i64
is_stale_iff checks oracle clock fits =
    rw
      (
        fits_signed-FitsSigned 63 (clock.unix_timestamp -ℤ oracle.last_heartbeat) fits,
        minutes_of-ltb (clock.unix_timestamp -ℤ oracle.last_heartbeat),
      )
      refl
