-- ===== src/Dates/Local.antt =====
-- The local hour and day of Userland/c/shell/userlib.c in plain numbers.
use mass_os.Prelude.{
  ltb, leb, Bool-cases, ℕ, ◌+◌, ◌-◌, ◌%◌, ◌≤◌, ◌<◌, ◌≡◌, refl, ◌∙◌, inl, inr, true, false, arith,
}
use mass_os.Dates.{from_bcd, to_bcd, adjust_hour, local_date}

from_bcd-to_bcd : (n : ℕ) → n < 100 → from_bcd (to_bcd n) ≡ n
unfolding from_bcd to_bcd
from_bcd-to_bcd n lt = omega arith

-- The local hour is the clock's less `back` hours, on a day of 24.
pub adjust_hour_lem :
    (hour back : ℕ)
    → hour < 24
    → back ≤ 24
    → from_bcd (adjust_hour (to_bcd hour) back) ≡ (hour + 24 - back) % 24
unfolding adjust_hour
adjust_hour_lem hour back lt le =
    let hour' = from_bcd-to_bcd hour (omega arith) in
    elim (Bool-cases (ltb hour back)) [
      | inl e ↦
          rw (hour', e) (from_bcd-to_bcd (hour + 24 - back) (ground arith) ∙ ground (arith, e))
      | inr e ↦
          let same_day : leb 24 (hour - back) ≡ false = ground arith in
          rw (hour', e, same_day) (from_bcd-to_bcd (hour - back) (omega arith) ∙ ground (arith, e))
    ]

-- In the first three hours of a month the date that is printed is a 30th, whatever the month.
pub first_of_month :
    (hour month year : ℕ)
    → hour < 3
    → 1 < month
    → month ≤ 12
    → local_date (to_bcd hour) (to_bcd 1, to_bcd month, year)
      ≡ (to_bcd 30, to_bcd (month - 1), year)
unfolding local_date
first_of_month hour month year early later valid =
    let hour' = from_bcd-to_bcd hour (omega arith) in
    let day = from_bcd-to_bcd 1 (omega arith) in
    let month' = from_bcd-to_bcd month (omega arith) in
    let e : ltb hour 3 ≡ true = ground arith in
    let e' : leb (month - 1) 0 ≡ false = ground arith in rw (hour', day, month', e, e') refl
