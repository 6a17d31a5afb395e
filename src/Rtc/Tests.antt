-- ===== src/Rtc/Tests.antt =====
-- Writes to the clock at concrete values.
use mp.Base.{ℕ, ◌*◌, ◌-◌, ◌^◌, ◌<◌, ◌≡◌, arith, some}
use mp.Rtc.{rtc_write}
use mp.Rtc.Rate.{programs, rtc_write-accepts}

rtc_write-accepts_example :
    (rate : ℕ) × (rtc_write (some 32) 4 0x26 ≡ some (0, programs 0x26 rate))
    × (rate < 16)
    × (32 * 2 ^ (rate - 1) ≡ 32768)
rtc_write-accepts_example = rtc_write-accepts 4 0x26 (omega arith) (omega arith)
