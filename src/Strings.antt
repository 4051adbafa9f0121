-- ===== src/Strings.antt =====
-- kernel/lib/string.cpp: `strncmp`, `uitoa` and `itoa`, over the flat memory of kernel/lib/mem.cpp. The
-- builder of strings has its own module.
pub mod Prefix
pub mod Digits
pub mod Convert
pub mod Read
pub mod Signed
use oke_os.Prelude.{
  ℕ, zero, suc, ◌+◌, ◌-◌, ◌*◌, ◌/◌, ◌%◌, ◌^◌, Bool, true, false, not, ◌&&◌, ◌||◌, Option, none,
  some, ltb, leb, ◌==◌, if◌then◌else◌,
}
use oke_os.MemLib.{Memory, poke}

-- An `int` that is a difference of two bytes: not negative, or negative.
pub data Difference : Type 0 where
  above : ℕ → Difference
  below : ℕ → Difference

abbrev pub difference : ℕ → ℕ → Difference
difference a b = if leb b a then above (a - b) else below (b - a)

-- `num` is counted down as in the source.
unfoldable pub strncmp : ℕ → ℕ → ℕ → Memory → Difference
strncmp str1 str2 zero m = above 0
strncmp str1 str2 (suc num) m =
    let rest = strncmp (str1 + 1) (str2 + 1) num m in
    if not (m str1 == 0) && (m str1 == m str2) then rest else difference (m str1) (m str2)

-- The character at `35 + digit` of the table, for a digit from 0 to 35.
unfoldable pub digit_char : ℕ → ℕ
digit_char digit = if ltb digit 10 then 48 + digit else 87 + digit

-- The do-while loop that writes the digits from the lowest on, on fuel: the memory, and the
-- pointer behind the last digit.
unfoldable pub convert : ℕ → ℕ → ℕ → ℕ → Memory → Option (ℕ × Memory)
unfolding digit_char
convert zero value base ptr m = none
convert (suc fuel) value base ptr m =
    let m' = poke m ptr (digit_char (value % base)) in
    let rest = convert fuel (value / base) base (ptr + 1) m' in
    if value / base == 0 then some (ptr + 1, m') else rest

-- The loop that turns the digits round, at the rounds left: `ptr` is at the last character.
unfoldable pub invert : ℕ → ℕ → ℕ → Memory → Memory
invert zero low ptr m = m
invert (suc rounds) low ptr m =
    let rest = invert rounds (low + 1) (ptr - 1) (poke (poke m low (m ptr)) ptr (m low)) in
    if ltb low ptr then rest else m

unfoldable pub uitoa : ℕ → ℕ → ℕ → ℕ → Memory → Option Memory
unfolding convert invert
uitoa fuel value str base m =
    if ltb base 2 || ltb 36 base
    then some (poke m str 0)
    else elim (convert fuel value base str m) [
      | none ↦ none
      | some (ptr, m') ↦ some (invert (ptr - str) str (ptr - 1) (poke m' ptr 0))
    ]

-- The value is the bit pattern of an `i64`; the base is compared as one, where a negative base is
-- refused like a large one. The remainder of a negative number is negative, and the table has the
-- same character there, so that the digits are those of the magnitude.
unfoldable pub itoa : ℕ → ℕ → ℕ → ℕ → Memory → Option Memory
unfolding convert invert
itoa fuel value str base m =
    let negative = leb (2 ^ 63) value in
    let magnitude = if negative then 2 ^ 64 - value else value in
    let signed = negative && base == 10 in
    let low = if signed then str + 1 else str in
    let m₀ = if signed then poke m str 45 else m in
    if ltb base 2 || ltb 36 base
    then some (poke m str 0)
    else elim (convert fuel magnitude base low m₀) [
      | none ↦ none
      | some (ptr, m') ↦ some (invert (ptr - low) low (ptr - 1) (poke m' ptr 0))
    ]
