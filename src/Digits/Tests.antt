-- ===== src/Digits/Tests.antt =====
-- Runs of the conversions between numbers and texts, and their theorems at inputs.
use mass_os.Prelude.{pos, negsuc, ◌≡◌, refl, some, [], ◌∷◌, ◌++◌, arith}
use mass_os.Digits.{
  rev_digits, num_to_str, satoi, do_digits, swap_ends, uint_to_base, zeros_pad, replicate,
  int_to_hexa,
}
use mass_os.Digits.Reading.{satoi-num_to_str}

decimal : num_to_str 4096 10 ≡ b'4' ∷ b'0' ∷ b'9' ∷ b'6' ∷ []
unfolding num_to_str rev_digits
decimal = refl

hexadecimal : uint_to_base 48879 16 ≡ b'B' ∷ b'E' ∷ b'E' ∷ b'F' ∷ []
unfolding uint_to_base do_digits swap_ends
hexadecimal = refl

base_17 : num_to_str 17 17 ≡ b'1' ∷ b'7' ∷ []
unfolding num_to_str rev_digits
base_17 = refl

negative : satoi (some (b'-' ∷ b'1' ∷ b'2' ∷ [])) ≡ negsuc 11
unfolding satoi
negative = refl

not_a_number : satoi (some (b'1' ∷ b'x' ∷ [])) ≡ pos 0
unfolding satoi
not_a_number = refl

padded : int_to_hexa 255 ≡ replicate 14 b'0' ++ b'F' ∷ b'F' ∷ []
unfolding int_to_hexa zeros_pad uint_to_base do_digits swap_ends
padded = refl

padded_zero : int_to_hexa 0 ≡ replicate 16 b'0'
unfolding int_to_hexa zeros_pad uint_to_base do_digits swap_ends
padded_zero = refl

satoi-num_to_str_example : satoi (some (num_to_str 4096 10)) ≡ pos 4096
satoi-num_to_str_example = satoi-num_to_str 4096 (omega arith)
