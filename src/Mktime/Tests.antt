-- ===== src/Mktime/Tests.antt =====
-- Runs of `kernel_mktime`.
use linux_0_11_learning.Base.{◌^◌, ◌<◌, ◌≡◌, refl, arith}
use linux_0_11_learning.Mktime.{Tm, kernel_mktime}
use linux_0_11_learning.Mktime.Calendar.{epoch_seconds, kernel_mktime-epoch_seconds}

abbrev new_year_1992 : Tm
new_year_1992 = record {
  tm_sec = 0;
  tm_min = 0;
  tm_hour = 0;
  tm_mday = 1;
  tm_mon = 0;
  tm_year = 92;
}

kernel_mktime-new_year : kernel_mktime new_year_1992 ≡ 694224000
unfolding kernel_mktime
kernel_mktime-new_year = refl

-- The first second that a 32-bit `long` does not hold: 19 January 2038, 03:14:08.
kernel_mktime-wraps :
    kernel_mktime
      (record { tm_sec = 8; tm_min = 14; tm_hour = 3; tm_mday = 19; tm_mon = 0; tm_year = 138 })
    ≡ 2 ^ 31
unfolding kernel_mktime
kernel_mktime-wraps = refl

kernel_mktime-epoch_seconds_example :
    (kernel_mktime new_year_1992 ≡ epoch_seconds 22 0 1 0 0 0)
    × (kernel_mktime new_year_1992 < 2 ^ 31)
kernel_mktime-epoch_seconds_example =
    kernel_mktime-epoch_seconds new_year_1992 (omega arith) (omega arith) (omega arith)
      (omega arith) (omega arith) (omega arith) (omega arith) (omega arith)
