-- ===== src/Mktime.antt =====
-- kernel/mktime.c: `kernel_mktime`, from a broken-down time to seconds since 1970.
pub mod Calendar
mod Tests
use linux_0_11_learning.Base.{
  ℕ, ◌+◌, ◌-◌, ◌*◌, ◌/◌, ◌%◌, ◌^◌, List, [], ◌∷◌, ◌&&◌, not, ltb, ◌==◌, if◌then◌else◌, get_or,
}

abbrev pub minute : ℕ
minute = 60

abbrev pub hour : ℕ
hour = 60 * minute

abbrev pub day : ℕ
day = 24 * hour

abbrev pub year : ℕ
year = 365 * day

-- The fields of `struct tm` that `kernel_mktime` reads.
pub record Tm : Type 0 where
  pub tm_sec : ℕ
  pub tm_min : ℕ
  pub tm_hour : ℕ
  pub tm_mday : ℕ
  pub tm_mon : ℕ
  pub tm_year : ℕ

-- The seconds before each month of a leap year.
abbrev pub month : List ℕ
month =
    0
    ∷ (day * 31)
    ∷ (day * (31 + 29))
    ∷ (day * (31 + 29 + 31))
    ∷ (day * (31 + 29 + 31 + 30))
    ∷ (day * (31 + 29 + 31 + 30 + 31))
    ∷ (day * (31 + 29 + 31 + 30 + 31 + 30))
    ∷ (day * (31 + 29 + 31 + 30 + 31 + 30 + 31))
    ∷ (day * (31 + 29 + 31 + 30 + 31 + 30 + 31 + 31))
    ∷ (day * (31 + 29 + 31 + 30 + 31 + 30 + 31 + 31 + 30))
    ∷ (day * (31 + 29 + 31 + 30 + 31 + 30 + 31 + 31 + 30 + 31))
    ∷ (day * (31 + 29 + 31 + 30 + 31 + 30 + 31 + 31 + 30 + 31 + 30))
    ∷ []

-- `res`, a `long`, wraps round at 32 bits. The sum is written out first: what wraps on the way comes to
-- the same. The code assumes `tm_year ≥ 70` and `tm_mon < 12` (a read past the table gives 0 here).
abbrev pub res : Tm → ℕ
res tm =
    let year' = tm.tm_year - 70 in
    let res = year * year' + day * ((year' + 1) / 4) in
    let res = res + get_or month tm.tm_mon 0 in
    let res = if ltb 1 tm.tm_mon && not ((year' + 2) % 4 == 0) then res - day else res in
    let res = res + day * (tm.tm_mday - 1) in
    res + hour * tm.tm_hour + minute * tm.tm_min + tm.tm_sec

-- The word that is returned: from 2 ^ 31 on it is a negative number.
unfoldable pub kernel_mktime : Tm → ℕ
kernel_mktime tm = res tm % 2 ^ 32
