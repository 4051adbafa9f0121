-- ===== src/MemLib/Move.antt =====
-- Moving and filling memory.
use oke_os.Prelude.{
  ℕ, zero, suc, ◌+◌, ◌-◌, ◌≤◌, ◌≡◌, ◌⊎◌, Bool, ◌&&◌, arith, leb, ltb, if◌then◌else◌, u8,
}
use oke_os.MemLib.{Memory, poke, copy_up, copy_down, memcpy, fill_up, memset, memmove}

-- The address lies in the `n` bytes from `start` on.
abbrev pub within : ℕ → ℕ → ℕ → Bool
within start n a = leb start a && ltb a (start + n)

-- Upwards is right where the target starts no higher than the source.
copy_up_lem :
    (rounds i dest src : ℕ) (m : Memory) (a : ℕ)
    → dest ≤ src
    → copy_up rounds i dest src m a
      ≡ (if within (dest + i) rounds a then m (a + (src - dest)) else m a)
unfolding copy_up
copy_up_lem zero i dest src m a h = ground arith
copy_up_lem (suc rounds) i dest src m a h =
    ground (arith, copy_up_lem rounds (i + 1) dest src (poke m (dest + i) (m (src + i))) a)

copy_down_lem :
    (i dest src : ℕ) (m : Memory) (a : ℕ)
    → src ≤ dest
    → copy_down i dest src m a ≡ (if within dest i a then m (a - (dest - src)) else m a)
unfolding copy_down
copy_down_lem zero dest src m a h = ground arith
copy_down_lem (suc i) dest src m a h =
    ground (arith, copy_down_lem i dest src (poke m (dest + i) (m (src + i))) a)

-- Upwards is right too where the source ends below the target.
copy_up_apart :
    (rounds i dest src n : ℕ) (m : Memory) (a : ℕ)
    → src + n ≤ dest
    → i + rounds ≤ n
    → copy_up rounds i dest src m a
      ≡ (if within (dest + i) rounds a then m (a - (dest - src)) else m a)
unfolding copy_up
copy_up_apart zero i dest src n m a h l = ground arith
copy_up_apart (suc rounds) i dest src n m a h l =
    ground (arith, copy_up_apart rounds (i + 1) dest src n (poke m (dest + i) (m (src + i))) a)

-- `memmove` copies the `n` bytes at `src`, as they were before, to `dest`, also where the two
-- ranges overlap, and changes nothing else.
pub memmove_lem :
    (dest src n : ℕ) (m : Memory) (a : ℕ)
    → memmove dest src n m a ≡ (if within dest n a then m (src + (a - dest)) else m a)
unfolding memmove
memmove_lem dest src n m a =
    ground (arith, copy_up_lem n 0 dest src m a, copy_down_lem n dest src m a)

-- `memcpy` is the same move where the ranges do not overlap, or the target starts no higher.
pub memcpy-memmove :
    (dest src n : ℕ) (m : Memory)
    → (dest ≤ src) ⊎ (src + n ≤ dest)
    → (a : ℕ) → memcpy dest src n m a ≡ memmove dest src n m a
unfolding memcpy
memcpy-memmove dest src n m apart a = ground (
  arith,
  memmove_lem dest src n m a,
  copy_up_lem n 0 dest src m a,
  copy_up_apart n 0 dest src n m a,
)

fill_up_lem :
    (rounds i s c : ℕ) (m : Memory) (a : ℕ)
    → fill_up rounds i s c m a ≡ (if within (s + i) rounds a then u8 c else m a)
unfolding fill_up
fill_up_lem zero i s c m a = ground arith
fill_up_lem (suc rounds) i s c m a =
    ground (arith, fill_up_lem rounds (i + 1) s c (poke m (s + i) (u8 c)) a)

-- `memset` stores the low byte of `c` into the `n` bytes at `s`, and changes nothing else.
pub memset_lem :
    (s c n : ℕ) (m : Memory) (a : ℕ) → memset s c n m a ≡ (if within s n a then u8 c else m a)
unfolding memset
memset_lem s c n m a = ground (arith, fill_up_lem n 0 s c m a)
