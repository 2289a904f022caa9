-- ===== src/Digits.antt =====
-- Numbers as text: `num_to_str` of Userland/c/shell/userlib.c, `satoi` of
-- Userland/c/tests/test_util.c, `uintToBase` of Kernel/c/lib/naiveConsole.c and `intToHexa` of
-- Kernel/c/drivers/keyboardDriver.c. A text is the list of its bytes before the NUL.
pub mod Reading
pub mod Swapping
pub mod Printing
mod Tests
use mass_os.Prelude.{
  ltb, ◌==◌, if◌then◌else◌, ℤ, pos, to_int64, length, get_or, update, slice, ℕ, zero, suc, ◌+◌, ◌-◌,
  ◌*◌, ◌/◌, ◌%◌, ◌^◌, ◌||◌, Option, none, some, List, [], ◌∷◌, ◌++◌, reverse,
}

-- `tmp` of `num_to_str` has 65 bytes: a 64-bit number has at most 64 digits.
abbrev pub max_digits : ℕ
max_digits = 64

pub digit_char : ℕ → ℕ
digit_char d = if ltb d 10 then b'0' + d else b'A' + (d - 10)

-- `while(value)`: the digits from the lowest, at most `n`.
pub rev_digits : ℕ → ℕ → ℕ → List ℕ
unfolding digit_char
rev_digits zero value base = []
rev_digits (suc n) value base =
    let rest = rev_digits n (value / base) base in
    if value == 0 then [] else digit_char (value % base) ∷ rest

abbrev pub used_base : ℕ → ℕ
used_base base = if ltb base 2 || ltb 16 base then 10 else base

-- The bytes in `dest`; the result of the C function is their number.
pub num_to_str : ℕ → ℕ → List ℕ
num_to_str value base =
    if value == 0 then b'0' ∷ [] else reverse (rev_digits max_digits value (used_base base))

-- The loop of `satoi` in 64 bits, `none` at a byte that is no digit.
pub satoi_loop : ℕ → List ℕ → Option ℕ
satoi_loop res [] = some res
satoi_loop res (c ∷ cs) =
    if ltb c b'0' || ltb b'9' c then none else satoi_loop ((res * 10 + (c - b'0')) % 2 ^ 64) cs

abbrev pub or_zero : Option ℕ → ℕ
or_zero none = 0
or_zero (some n) = n

-- `none` for NULL. `res * sign` in 64 bits.
pub satoi : Option (List ℕ) → ℤ
unfolding satoi_loop
satoi none = pos 0
satoi (some []) = pos 0
satoi (some (c ∷ cs)) =
    if c == b'-'
    then to_int64 (2 ^ 64 - or_zero (satoi_loop 0 cs))
    else to_int64 (or_zero (satoi_loop 0 (c ∷ cs)))

-- The `do` loop of `uintToBase`: the digits from the lowest, at most `n`.
pub do_digits : ℕ → ℕ → ℕ → List ℕ
unfolding digit_char
do_digits zero value base = []
do_digits (suc n) value base =
    let rest = do_digits n (value / base) base in
    digit_char (value % base) ∷ (if value / base == 0 then [] else rest)

-- The loop that swaps the bytes at `p1` and `p2` until they meet, at most `n` times.
pub swap_ends : ℕ → ℕ → ℕ → (ℕ → ℕ) → ℕ → ℕ
swap_ends zero p1 p2 buff = buff
swap_ends (suc n) p1 p2 buff =
    let swapped = swap_ends n (p1 + 1) (p2 - 1) (update (update buff p1 (buff p2)) p2 (buff p1)) in
    if ltb p1 p2 then swapped else buff

-- The bytes in `buff`; the result of the C function is their number.
pub uint_to_base : ℕ → ℕ → List ℕ
uint_to_base value base =
    let digits = do_digits max_digits value base in
    let count = length digits in
    slice (swap_ends count 0 (count - 1) (λ i. get_or digits i 0)) 0 count

-- `while(aux){ aux >>= 4; --zerosPad; }`
unfoldable pub zeros_pad : ℕ → ℕ → ℕ
zeros_pad zero aux = 0
zeros_pad (suc n) aux = let rest = zeros_pad n (aux / 16) in if aux == 0 then suc n else rest

abbrev pub replicate : ℕ → ℕ → List ℕ
replicate zero c = []
replicate (suc n) c = c ∷ replicate n c

-- The bytes in `dest`.
unfoldable pub int_to_hexa : ℕ → List ℕ
int_to_hexa value =
    replicate (zeros_pad 16 value) b'0' ++ (if value == 0 then [] else uint_to_base value 16)
