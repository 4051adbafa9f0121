-- ===== src/Strings/Prefix.antt =====
-- What `strncmp` tells of two strings.
use oke_os.Prelude.{ℕ, ◌+◌, ◌≤◌, ◌<◌, ◌≡◌, ◌≢◌}
use oke_os.MemLib.{Memory}
use oke_os.Strings.{Difference, above, difference}

-- How two strings compare within `n` characters: they agree on all of them; they agree up to a
-- common end; or they agree up to a first difference, in front of which neither ends, and whose
-- characters the result tells apart.
pub data Order (s1 s2 n : ℕ) (m : Memory) : Difference → Type 0 where
  whole : ((j : ℕ) → j < n → m (s1 + j) ≡ m (s2 + j)) → Order s1 s2 n m (above 0)
  ended :
      (k : ℕ)
      → k < n
      → ((j : ℕ) → j ≤ k → m (s1 + j) ≡ m (s2 + j))
      → m (s1 + k) ≡ 0
      → Order s1 s2 n m (above 0)
  parted :
      (k : ℕ)
      → k < n
      → ((j : ℕ) → j < k → m (s1 + j) ≡ m (s2 + j))
      → ((j : ℕ) → j < k → m (s1 + j) ≢ 0)
      → m (s1 + k) ≢ m (s2 + k)
      → Order s1 s2 n m (difference (m (s1 + k)) (m (s2 + k)))
