-- ===== src/Dates/Tests.antt =====
-- Runs of the local time and date.
use mass_os.Prelude.{◌≡◌, refl}
use mass_os.Dates.{from_bcd, to_bcd, adjust_hour, print_time_and_date, local_date}
use mass_os.Text.{codes}
use mass_os.Dates.{two_digits, year_before}

midnight : adjust_hour 0x02 3 ≡ 0x23
unfolding adjust_hour from_bcd to_bcd
midnight = refl

new_year : local_date 0x01 (0x01, 0x01, 0x24) ≡ (0x30, 0x12, 0x23)
unfolding local_date year_before from_bcd to_bcd
new_year = refl

new_century : local_date 0x01 (0x01, 0x01, 0x00) ≡ (0x30, 0x12, 0xFF)
unfolding local_date year_before from_bcd to_bcd
new_century = refl

clock_face : print_time_and_date (0x09, 0x30, 0x05) b':' ≡ codes "09:30:05\n"
unfolding print_time_and_date two_digits from_bcd
clock_face = refl
