-- ===== src/Mktime/Calendar.antt =====
-- `kernel_mktime` against a calendar that counts days one year and one month at a time.
use linux_0_11_learning.Base.{
  ℕ, zero, suc, ◌+◌, ◌-◌, ◌*◌, ◌/◌, ◌%◌, ◌^◌, ◌≤◌, ◌<◌, ◌≡◌, ◌∙◌, [], ◌∷◌, Bool, true, false, arith,
  ltb, not, ◌&&◌, ◌==◌, if◌then◌else◌, get_or,
}
use linux_0_11_learning.Mktime.{Tm, day, month, res, kernel_mktime}

-- The Gregorian rule.
unfoldable pub is_leap : ℕ → Bool
is_leap y = if y % 400 == 0 then true else if y % 100 == 0 then false else y % 4 == 0

unfoldable pub days_in_year : ℕ → ℕ
days_in_year y = if is_leap y then 366 else 365

unfoldable pub days_in_month : ℕ → ℕ → ℕ
days_in_month y m =
    if m == 1
    then (if is_leap y then 29 else 28)
    else get_or (31 ∷ 28 ∷ 31 ∷ 30 ∷ 31 ∷ 30 ∷ 31 ∷ 31 ∷ 30 ∷ 31 ∷ 30 ∷ 31 ∷ []) m 0

-- The days from 1 January 1970 to 1 January of the `n`th year after.
unfoldable pub days_before_year : ℕ → ℕ
days_before_year zero = 0
days_before_year (suc n) = days_before_year n + days_in_year (1970 + n)

unfoldable pub days_before_month : ℕ → ℕ → ℕ
days_before_month y zero = 0
days_before_month y (suc m) = days_before_month y m + days_in_month y m

-- Seconds since 1 January 1970, 00:00:00.
unfoldable pub epoch_seconds : (n mon mday h mi s : ℕ) → ℕ
epoch_seconds n mon mday h mi s =
    86400 * (days_before_year n + days_before_month (1970 + n) mon + (mday - 1))
    + 3600 * h
    + 60 * mi
    + s

-- Up to 2099 every fourth year is a leap year.
is_leap_by_four : (n : ℕ) → n < 130 → is_leap (1970 + n) ≡ ((n + 2) % 4 == 0)
unfolding is_leap
is_leap_by_four n h = ground arith

days_before_year_lem : (n : ℕ) → n ≤ 130 → days_before_year n ≡ 365 * n + (n + 1) / 4
unfolding days_before_year days_in_year
days_before_year_lem zero h = omega arith
days_before_year_lem (suc n) h = ground (arith, is_leap_by_four n, days_before_year_lem n)

-- The table of `kernel_mktime`, corrected by a day after February of a common year.
days_before_month_lem :
    (y m : ℕ)
    → m < 12
    → 86400 * days_before_month y m
      ≡ (if ltb 1 m && not (is_leap y) then get_or month m 0 - day else get_or month m 0)
unfolding days_before_month days_in_month
days_before_month_lem y m h = go m h
  where
    go :
        (m : ℕ)
        → m < 12
        → 86400 * days_before_month y m
          ≡ (if ltb 1 m && not (is_leap y) then get_or month m 0 - day else get_or month m 0)
    go zero h = ground arith
    go (suc zero) h = ground arith
    go (suc (suc zero)) h = ground arith
    go (suc (suc (suc zero))) h = ground arith
    go (suc (suc (suc (suc zero)))) h = ground arith
    go (suc (suc (suc (suc (suc zero))))) h = ground arith
    go (suc (suc (suc (suc (suc (suc zero)))))) h = ground arith
    go (suc (suc (suc (suc (suc (suc (suc zero))))))) h = ground arith
    go (suc (suc (suc (suc (suc (suc (suc (suc zero)))))))) h = ground arith
    go (suc (suc (suc (suc (suc (suc (suc (suc (suc zero))))))))) h = ground arith
    go (suc (suc (suc (suc (suc (suc (suc (suc (suc (suc zero)))))))))) h = ground arith
    go (suc (suc (suc (suc (suc (suc (suc (suc (suc (suc (suc zero))))))))))) h = ground arith
    go (suc (suc (suc (suc (suc (suc (suc (suc (suc (suc (suc (suc m)))))))))))) h =
        absurd (omega arith)

-- Up to 2099 the sum is the seconds that the calendar counts.
res-epoch_seconds :
    (tm : Tm)
    → 70 ≤ tm.tm_year
    → tm.tm_year < 200
    → tm.tm_mon < 12
    → 1 ≤ tm.tm_mday
    → res tm ≡ epoch_seconds (tm.tm_year - 70) tm.tm_mon tm.tm_mday tm.tm_hour tm.tm_min tm.tm_sec
unfolding epoch_seconds
res-epoch_seconds tm lo hi mo md = ground (
  arith,
  days_before_year_lem (tm.tm_year - 70),
  days_before_month_lem (1970 + (tm.tm_year - 70)) tm.tm_mon,
  is_leap_by_four (tm.tm_year - 70),
)

-- From 1970 to 2037, with every field in its range, the sum is below 2 ^ 31.
res-lt :
    (tm : Tm)
    → 70 ≤ tm.tm_year
    → tm.tm_year < 138
    → tm.tm_mon < 12
    → 1 ≤ tm.tm_mday
    → tm.tm_mday ≤ 31
    → tm.tm_hour < 24
    → tm.tm_min < 60
    → tm.tm_sec < 60
    → res tm < 2 ^ 31
res-lt tm lo hi mo md md' h mi s = ground arith

-- From 1970 to 2037, with every field in its range, `kernel_mktime` returns the seconds that the
-- calendar counts, and they fit: the 32-bit `long` is not negative.
pub kernel_mktime-epoch_seconds :
    (tm : Tm)
    → 70 ≤ tm.tm_year
    → tm.tm_year < 138
    → tm.tm_mon < 12
    → 1 ≤ tm.tm_mday
    → tm.tm_mday ≤ 31
    → tm.tm_hour < 24
    → tm.tm_min < 60
    → tm.tm_sec < 60
    → (kernel_mktime tm
        ≡ epoch_seconds (tm.tm_year - 70) tm.tm_mon tm.tm_mday tm.tm_hour tm.tm_min tm.tm_sec)
      × (kernel_mktime tm < 2 ^ 31)
unfolding kernel_mktime
kernel_mktime-epoch_seconds tm lo hi mo md md' h mi s =
    let lt = res-lt tm lo hi mo md md' h mi s in
    let same = res-epoch_seconds tm lo (omega arith) mo md in
    let fits : res tm % 2 ^ 32 ≡ res tm = omega arith in (fits ∙ same, rw fits lt)
