-- ===== src/Instant.antt =====
-- Python's `datetime` in UTC: an instant is its number of microseconds since 0001-01-01T00:00:00,
-- the least value of the type, so that comparison is that of the numbers and `_to_utc` is the
-- identity. `isoformat` is the only way in which the program prints one.
use Prim.Native.Nat.{◌/◌, ◌%◌}
use im_assistant.Prelude.{
  ℕ, zero, suc, ◌+◌, ◌-◌, ◌*◌, Bool, ◌&&◌, ◌||◌, not, List, [], ◌∷◌, ◌++◌, Text, codes, eqb, ltb,
  if◌then◌else◌,
}

abbrev pub Instant : Type 0
Instant = ℕ

-- `timedelta(seconds=n)`
abbrev pub seconds : ℕ → ℕ
seconds n = n * 1000000

abbrev month_lengths : Bool → List ℕ
month_lengths leap =
    31 ∷ (if leap then 29 else 28) ∷ 31 ∷ 30 ∷ 31 ∷ 30 ∷ 31 ∷ 31 ∷ 30 ∷ 31 ∷ 30 ∷ 31 ∷ []

-- The month and the day of the month, from the day of the year.
month_day : ℕ → List ℕ → ℕ → ℕ × ℕ
month_day month [] day = (month, day + 1)
month_day month (n ∷ ns) day =
    let later = month_day (month + 1) ns (day - n) in if ltb day n then (month, day + 1) else later

-- The date of a day counted from 0001-01-01, by cycles of 400, 100, 4 years and 1 year.
civil : ℕ → ℕ × ℕ × ℕ
unfolding month_day
civil n =
    let n400 = n / 146097 in
    let r400 = n % 146097 in
    let n100 = r400 / 36524 in
    let r100 = r400 % 36524 in
    let n4 = r100 / 1461 in
    let r4 = r100 % 1461 in
    let n1 = r4 / 365 in
    let day = r4 % 365 in
    let year = n400 * 400 + n100 * 100 + n4 * 4 + n1 in
    let leap = eqb n1 3 && (not (eqb n4 24) || eqb n100 3) in
    let (m, d) = month_day 1 (month_lengths leap) day in
    if eqb n1 4 || eqb n100 4 then (year, 12, 31) else (year + 1, m, d)

-- `n` in decimal, in `width` digits
digits : ℕ → ℕ → Text
digits zero n = []
digits (suc width) n = digits width (n / 10) ++ (n % 10 + 48) ∷ []

-- `datetime.isoformat()`: the microseconds are left out where they are zero.
unfoldable pub isoformat : Instant → Text
unfolding civil digits
isoformat t =
    let micro = t % 1000000 in
    let s = t / 1000000 in
    let (year, month, day) = civil (s / 86400) in
    digits 4 year
    ++ (45 ∷ digits 2 month)
    ++ (45 ∷ digits 2 day)
    ++ (84 ∷ digits 2 (s / 3600 % 24))
    ++ (58 ∷ digits 2 (s / 60 % 60))
    ++ (58 ∷ digits 2 (s % 60))
    ++ (if eqb micro 0 then [] else 46 ∷ digits 6 micro)
    ++ codes "+00:00"
