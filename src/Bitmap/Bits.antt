-- ===== src/Bitmap/Bits.antt =====
-- The bitmap as a sequence of bits.
use oke_os.Prelude.{ℕ, ◌*◌, ◌/◌, ◌%◌, ◌≤◌, ◌<◌, ◌≡◌, Bool, true, false, arith, ◌==◌, if◌then◌else◌}
use oke_os.Bitmap.{Bitmap, get, set, IsValid}
use oke_os.Bitmap.Byte.{write_bit-lt, test_bit-write_bit}

module _ {b : Bitmap} (valid : IsValid b) where
  pub set-IsValid : (i : ℕ) (v : Bool) → IsValid (set b i v).0
  unfolding set
  set-IsValid i v = record {
    fits = ground (arith, valid.fits);
    bytes = λ q.
        ground
          (arith, valid.bytes q, valid.bytes (i / 8), write_bit-lt (b.buffer (i / 8)) (i % 8) v);
  }

  -- `set` reports success exactly up to the offset `size * 8`.
  pub set_succeeds : (i : ℕ) (v : Bool) → i ≤ b.size * 8 → (set b i v).1 ≡ true
  unfolding set
  set_succeeds i v h = ground (arith, valid.fits)

  pub set_fails : (i : ℕ) (v : Bool) → b.size * 8 < i → set b i v ≡ (b, false)
  unfolding set
  set_fails i v h = ground (arith, valid.fits)

  pub get_outside : (i : ℕ) → b.size * 8 < i → get b i ≡ false
  unfolding get
  get_outside i h = ground (arith, valid.fits)

  -- On a valid bitmap, up to the offset `size * 8`, `get` after `set` reads the value at the
  -- offset that was written, and what was there at every other.
  pub get-set :
      (i j : ℕ) (v : Bool)
      → i ≤ b.size * 8
      → j ≤ b.size * 8
      → get (set b i v).0 j ≡ (if i == j then v else get b j)
  unfolding get set
  get-set i j v hi hj = ground (
    arith,
    valid.fits,
    valid.bytes (i / 8),
    test_bit-write_bit (b.buffer (i / 8)) (i % 8) (j % 8) v,
  )

pub size-set : (b : Bitmap) (i : ℕ) (v : Bool) → ((set b i v).0).size ≡ b.size
unfolding set
size-set b i v = ground arith
