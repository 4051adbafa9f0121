-- ===== src/MemLib.antt =====
-- kernel/lib/mem.cpp over a flat memory of bytes. A loop is a recursion on the rounds left, with
-- the source's counter; addresses are taken to stay below the top of the address space.
pub mod Move
pub mod Compare
use oke_os.Prelude.{
  ℕ, zero, suc, ◌+◌, ◌%◌, ◌^◌, Bool, Option, none, some, ltb, ◌==◌, if◌then◌else◌, u8, u32,
}

abbrev pub Memory : Type 0
Memory = ℕ → ℕ

abbrev pub poke : Memory → ℕ → ℕ → Memory
poke m a v b = if a == b then v else m b

-- `for (i = ...; i < n; i++) dest[i] = src[i]`
unfoldable pub copy_up : ℕ → ℕ → ℕ → ℕ → Memory → Memory
copy_up zero i dest src m = m
copy_up (suc rounds) i dest src m =
    copy_up rounds (i + 1) dest src (poke m (dest + i) (m (src + i)))

-- `for (i = n; i > 0; i--) dest[i-1] = src[i-1]`
unfoldable pub copy_down : ℕ → ℕ → ℕ → Memory → Memory
copy_down zero dest src m = m
copy_down (suc i) dest src m = copy_down i dest src (poke m (dest + i) (m (src + i)))

unfoldable pub memcpy : ℕ → ℕ → ℕ → Memory → Memory
unfolding copy_up
memcpy dest src n m = copy_up n 0 dest src m

unfoldable pub fill_up : ℕ → ℕ → ℕ → ℕ → Memory → Memory
fill_up zero i s c m = m
fill_up (suc rounds) i s c m = fill_up rounds (i + 1) s c (poke m (s + i) (u8 c))

unfoldable pub memset : ℕ → ℕ → ℕ → Memory → Memory
unfolding fill_up
memset s c n m = fill_up n 0 s c m

unfoldable pub memmove : ℕ → ℕ → ℕ → Memory → Memory
unfolding copy_up copy_down
memmove dest src n m =
    if ltb dest src
    then copy_up n 0 dest src m
    else if ltb src dest
    then copy_down n dest src m
    else m

-- The result of a comparison: -1, 0 or 1.
pub data Sign : Type 0 where
  minus_one nought one : Sign

unfoldable pub compare_up : ℕ → ℕ → ℕ → ℕ → Memory → Sign
compare_up zero i s1 s2 m = nought
compare_up (suc rounds) i s1 s2 m =
    let rest = compare_up rounds (i + 1) s1 s2 m in
    if m (s1 + i) == m (s2 + i)
    then rest
    else if ltb (m (s1 + i)) (m (s2 + i))
    then minus_one
    else one

unfoldable pub memcmp : ℕ → ℕ → ℕ → Memory → Sign
unfolding compare_up
memcmp s1 s2 n m = compare_up n 0 s1 s2 m

-- The search for the terminating zero, on fuel; the counter is a `u32`.
unfoldable pub strlen_loop : ℕ → ℕ → ℕ → Memory → Option ℕ
strlen_loop zero i str m = none
strlen_loop (suc fuel) i str m =
    let rest = strlen_loop fuel (u32 (i + 1)) (str + 1) m in if m str == 0 then some i else rest

unfoldable pub strlen : ℕ → ℕ → Memory → Option ℕ
unfolding strlen_loop
strlen fuel str m = strlen_loop fuel 0 str m
