-- ===== src/Bitmap.antt =====
-- `struct Bitmap` of kernel/lib/bitmap.h with `get` and `set` of kernel/lib/bitmap.cpp.
-- `buffer` is the memory from the pointer `Buffer` on, as a function of the byte's offset: a byte
-- behind the bitmap's own is there too, and a write to it is seen.
pub mod Byte
pub mod Bits
use oke_os.Prelude.{
  ℕ, ◌+◌, ◌-◌, ◌*◌, ◌/◌, ◌%◌, ◌^◌, ◌<◌, bit_and, bit_or, Bool, true, false, not, ltb, ◌==◌,
  if◌then◌else◌, u8, u64, ◌<<<◌, ◌>>>◌,
}

pub record Bitmap : Type 0 where
  pub size : ℕ
  pub buffer : ℕ → ℕ

abbrev pub write_byte : (ℕ → ℕ) → ℕ → ℕ → ℕ → ℕ
write_byte m p v q = if p == q then v else m q

-- `temp << (offset % 8)` in a `uint8_t`, then `>> 7`.
unfoldable pub test_bit : ℕ → ℕ → Bool
test_bit byte k = not (u8 (byte <<< k) >>> 7 == 0)

-- `& (~bitIndexer)`, and `| bitIndexer` where the value is true; `~` of a byte, in a byte, is
-- 255 less the byte.
unfoldable pub write_bit : ℕ → ℕ → Bool → ℕ
write_bit byte k value =
    let indexer = 0b10000000 >>> k in
    let cleared = u8 (bit_and byte (255 - indexer)) in
    if value then u8 (bit_or cleared indexer) else cleared

unfoldable pub get : Bitmap → ℕ → Bool
get b offset =
    if ltb (u64 (b.size * 8)) offset then false else test_bit (b.buffer (offset / 8)) (offset % 8)

unfoldable pub set : Bitmap → ℕ → Bool → Bitmap × Bool
set b offset value = if ltb (u64 (b.size * 8)) offset then (b, false) else (
  record b {
    buffer =
        write_byte b.buffer (offset / 8) (write_bit (b.buffer (offset / 8)) (offset % 8) value);
  },
  true,
)

-- The size in bits does not overflow, and the memory holds bytes.
pub record IsValid (b : Bitmap) : Type 0 where
  pub fits : b.size * 8 < 2 ^ 64
  pub bytes : (i : ℕ) → b.buffer i < 256
