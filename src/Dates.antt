-- ===== src/Dates.antt =====
-- Local time in Userland/c/shell/userlib.c, three hours behind the clock, whose bytes are in BCD.
pub mod Local
mod Tests
use mass_os.Prelude.{ltb, leb, ◌==◌, if◌then◌else◌, ℕ, ◌+◌, ◌-◌, ◌*◌, ◌/◌, ◌%◌, List, [], ◌∷◌, ◌++◌}

-- Two decimal digits of a byte in BCD.
pub from_bcd : ℕ → ℕ
from_bcd b = b / 16 * 10 + b % 16

-- `((n / 10) << 4) | (n % 10)` in a byte.
pub to_bcd : ℕ → ℕ
to_bcd n = (n / 10 * 16 + n % 10) % 256

-- `adjustHour` with the offset `- back`, of at most a day.
pub adjust_hour : ℕ → ℕ → ℕ
unfolding from_bcd to_bcd
adjust_hour hour back =
    let decimal_hour = from_bcd hour in
    if ltb decimal_hour back
    then to_bcd (decimal_hour + 24 - back)
    else if leb 24 (decimal_hour - back)
    then to_bcd (decimal_hour - back - 24)
    else to_bcd (decimal_hour - back)

-- The characters of `printTimeAndDate` for three bytes.
two_digits : ℕ → List ℕ
unfolding from_bcd
two_digits b = (b'0' + from_bcd b / 10) ∷ (b'0' + from_bcd b % 10) ∷ []

pub print_time_and_date : ℕ × ℕ × ℕ → ℕ → List ℕ
unfolding two_digits
print_time_and_date (a, b, c) separator =
    two_digits a ++ separator ∷ two_digits b ++ separator ∷ two_digits c ++ 10 ∷ []

-- A year of 0 is followed by -1, whose bits are 255.
year_before : ℕ → ℕ
unfolding from_bcd to_bcd
year_before year = if from_bcd year == 0 then 255 else to_bcd (from_bcd year - 1)

-- What `printDate` prints for the hour of the clock and its day, month and year.
pub local_date : ℕ → ℕ × ℕ × ℕ → ℕ × ℕ × ℕ
unfolding from_bcd to_bcd year_before
local_date hour (day, month, year) =
    if ltb (from_bcd hour) 3
    then (if leb (from_bcd day - 1) 0
        then (if leb (from_bcd month - 1) 0
            then (to_bcd 30, to_bcd 12, year_before year)
            else (to_bcd 30, to_bcd (from_bcd month - 1), year))
        else (to_bcd (from_bcd day - 1), month, year))
    else (day, month, year)
