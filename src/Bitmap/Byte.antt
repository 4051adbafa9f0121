-- ===== src/Bitmap/Byte.antt =====
-- One byte of a bitmap: every byte, position and value is tried.
use oke_os.Prelude.{
  ℕ, ◌<◌, ◌≡◌, refl, Bool, true, false, ◌&&◌, arith, ltb, ◌==◌, if◌then◌else◌, same, same→eq,
  ltb→lt, every, every-at,
}
use oke_os.Bitmap.{test_bit, write_bit}

-- Reading position `j` after a write at position `k`, and the byte stays a byte.
agrees : Bool → ℕ → ℕ → ℕ → Bool
agrees v byte k j = same (test_bit (write_bit byte k v) j) (if k == j then v else test_bit byte j)

byte_table : Bool → Bool
byte_table v =
    every (λ byte. every (λ k. ltb (write_bit byte k v) 256 && every (agrees v byte k) 8) 8) 256

byte_table-true : byte_table true ≡ true
unfolding byte_table agrees every test_bit write_bit
byte_table-true = refl

byte_table-false : byte_table false ≡ true
unfolding byte_table agrees every test_bit write_bit
byte_table-false = refl

and_left : (a b : Bool) → (a && b) ≡ true → (a ≡ true) × (b ≡ true)
and_left a b h = ground arith

byte_row :
    (v : Bool) (byte k : ℕ)
    → byte < 256
    → k < 8
    → (ltb (write_bit byte k v) 256 && every (agrees v byte k) 8) ≡ true
unfolding byte_table
byte_row true byte k p q = every-at _ 8 (every-at _ 256 byte_table-true byte p) k q
byte_row false byte k p q = every-at _ 8 (every-at _ 256 byte_table-false byte p) k q

pub write_bit-lt : (byte k : ℕ) (v : Bool) → byte < 256 → k < 8 → write_bit byte k v < 256
write_bit-lt byte k v p q = ltb→lt _ _ (and_left _ _ (byte_row v byte k p q)).0

pub test_bit-write_bit :
    (byte k j : ℕ) (v : Bool)
    → byte < 256
    → k < 8
    → j < 8
    → test_bit (write_bit byte k v) j ≡ (if k == j then v else test_bit byte j)
unfolding agrees
test_bit-write_bit byte k j v p q r =
    same→eq _ _ (every-at (agrees v byte k) 8 (and_left _ _ (byte_row v byte k p q)).1 j r)

-- A zero byte has no bit set.
pub test_bit-zero : (k : ℕ) → test_bit 0 k ≡ false
unfolding test_bit
test_bit-zero k = ground arith
