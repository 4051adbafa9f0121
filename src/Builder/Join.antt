-- ===== src/Builder/Join.antt =====
-- Copying the parts behind each other.
use oke_os.Prelude.{
  ◌⊎◌, inl, inr, ℕ, zero, suc, ◌+◌, ◌-◌, ◌^◌, ◌≤◌, ◌<◌, ◌≡◌, ◌∙◌, refl, sym, ap, false, true, some,
  arith, u64, Bool-cases, ◌==◌,
}
use mathlib.Core.Path.{subst}
use oke_os.MemLib.{Memory, memcpy}
use oke_os.MemLib.Move.{within, memmove_lem, memcpy-memmove}
use oke_os.Builder.{measure, join}
use oke_os.Builder.Sum.{IsString, offset, offset_next, strlen-IsString, measure_lem}

-- The string and its zero have no byte in common with the `total` bytes at `out`.
abbrev pub Apart : ℕ → ℕ → ℕ → ℕ → Type 0
Apart out total a n = (a + n < out) ⊎ (out + total ≤ a)

-- A copy to a range that the source has no byte in common with.
module _ (dest src n : ℕ) (m : Memory) (apart : (dest ≤ src) ⊎ (src + n ≤ dest)) where
  memcpy_inside : (k : ℕ) → k < n → memcpy dest src n m (dest + k) ≡ m (src + k)
  memcpy_inside k l =
      memcpy-memmove dest src n m apart (dest + k)
      ∙ memmove_lem dest src n m (dest + k)
      ∙ (let back : src + (dest + k - dest) ≡ src + k = omega arith in
          let is_in : within dest n (dest + k) ≡ true = ground arith in rw (is_in, back) refl)

  memcpy_outside : (a : ℕ) → (a < dest) ⊎ (dest + n ≤ a) → memcpy dest src n m a ≡ m a
  memcpy_outside a o =
      memcpy-memmove dest src n m apart a
      ∙ memmove_lem dest src n m a
      ∙ (let is_out : within dest n a ≡ false = ground arith in rw is_out refl)

IsString-agrees :
    {m m' : Memory} (a n : ℕ)
    → IsString m a n
    → ((j : ℕ) → j ≤ n → m' (a + j) ≡ m (a + j))
    → IsString m' a n
IsString-agrees a n s e = record {
  bytes = λ j l z. s.bytes j l (sym (e j (omega arith)) ∙ z);
  ends = e n (omega arith) ∙ s.ends;
}

-- What a copy of the parts from `i` on has made of the memory.
pub record Joined (out n : ℕ) (slots len : ℕ → ℕ) (i : ℕ) (m m' : Memory) : Type 0 where
  pub joined : (j k : ℕ) → i ≤ j → j < n → k < len j → m' (out + offset len j + k) ≡ m (slots j + k)
  pub kept : (a : ℕ) → (a < out + offset len i) ⊎ (out + offset len n ≤ a) → m' a ≡ m a

abbrev pub Strings : ℕ → ℕ → ℕ → (ℕ → ℕ) → (ℕ → ℕ) → ℕ → Memory → Type 0
Strings text out n slots len i m =
    (j : ℕ)
    → i ≤ j
    → j < n
    → IsString m (slots j) (len j) × (len j < text) × Apart out (offset len n) (slots j) (len j)

module _ (text out n : ℕ) (slots len : ℕ → ℕ) (fits : text ≤ 2 ^ 31)
    (room : out + offset len n < 2 ^ 62) where
  -- The copy of the part `i` touches no byte outside of the whole text.
  module _ (i rounds : ℕ) (m : Memory) (e : i + suc rounds ≡ n)
      (s : Strings text out n slots len i m) where
    abbrev copied : Memory
    copied = memcpy (out + offset len i) (slots i) (len i) m

    clear : (out + offset len i ≤ slots i) ⊎ (slots i + len i ≤ out + offset len i)
    clear =
        let next = offset_next len i rounds n e in
        elim ((s i (omega arith) (omega arith)).2) [
          | inl below ↦ inr (omega arith)
          | inr above ↦ inl (omega arith)
        ]

    untouched : (a : ℕ) → (a < out) ⊎ (out + offset len n ≤ a) → copied a ≡ m a
    untouched a o =
        let next = offset_next len i rounds n e in
        memcpy_outside (out + offset len i) (slots i) (len i) m clear a
          (elim o [ inl below ↦ inl (omega arith) | inr above ↦ inr (omega arith) ])

    source_untouched :
        (j k : ℕ) → i ≤ j → j < n → k ≤ len j → copied (slots j + k) ≡ m (slots j + k)
    source_untouched j k l l' b =
        untouched (slots j + k)
          (elim ((s j l l').2) [ inl below ↦ inl (omega arith) | inr above ↦ inr (omega arith) ])

    copied-Strings : Strings text out n slots len (suc i) copied
    copied-Strings j l l' =
        let (string, short, apart) = s j (omega arith) l' in
        (
          IsString-agrees (slots j) (len j) string (λ k b. source_untouched j k (omega arith) l' b),
          short,
          apart,
        )

    -- One part in front of the others.
    Joined-next :
        {m' : Memory} → Joined out n slots len (suc i) copied m' → Joined out n slots len i m m'
    Joined-next {m'} rest =
        let next = offset_next len i rounds n e in
        record {
          joined = λ j k l l' b. elim (Bool-cases (j == i)) [
            | inl here ↦
                let at : j ≡ i = ground arith in
                let own : k < len i = omega (arith, ap len at, b) in
                let copy : m' (out + offset len i + k) ≡ m (slots i + k) =
                  rest.kept (out + offset len i + k) (inl (omega arith))
                  ∙ memcpy_inside (out + offset len i) (slots i) (len i) m clear k own in
                subst (λ q. m' (out + offset len q + k) ≡ m (slots q + k)) (sym at) copy
            | inr later ↦
                let above : suc i ≤ j = ground arith in
                rest.joined j k above l' b ∙ source_untouched j k l l' (omega arith)
          ];
          kept = λ a o. elim o [
            | inl below ↦
                rest.kept a (inl (omega arith))
                ∙ memcpy_outside (out + offset len i) (slots i) (len i) m clear a (inl below)
            | inr above ↦ rest.kept a (inr above) ∙ untouched a (inr above)
          ];
        }

  join_from :
      (rounds i : ℕ) (m : Memory)
      → i + rounds ≡ n
      → Strings text out n slots len i m
      → (m' : Memory) × (join text rounds i (offset len i) out slots m ≡ some m')
        × Joined out n slots len i m m'
  unfolding join
  join_from zero i m e s =
      (m, refl, record { joined = λ j k l l' b. absurd (omega arith); kept = λ a o. refl })
  join_from (suc rounds) i m e s =
      let (string, short, apart) = s i (omega arith) (omega arith) in
      let next = offset_next len i rounds n e in
      let (m', returns, rest) =
        join_from rounds (suc i) (copied i rounds m e s) (omega arith)
          (copied-Strings i rounds m e s) in
      let whole : u64 (offset len i + len i) ≡ offset len (suc i) = omega arith in
      let plus : i + 1 ≡ suc i = omega arith in
      (
        m',
        rw (join, strlen-IsString text (len i) (slots i) string short (omega arith), whole, plus)
            returns,
        Joined-next i rounds m e s rest,
      )

-- With the parts of a builder standing apart from the buffer: `fullSize` counts the bytes of the parts
-- and a zero for each, and the loop that follows copies the parts, one behind the other and without
-- their zeros, into the buffer, and changes no other byte.
pub measure-join :
    (text out n : ℕ) (slots len : ℕ → ℕ) (m : Memory)
    → text ≤ 2 ^ 31
    → out + offset len n + n < 2 ^ 62
    → Strings text out n slots len 0 m
    → (measure text n 0 0 slots m ≡ some (offset len n + n))
      × (m' : Memory) × (join text n 0 0 out slots m ≡ some m')
      × Joined out n slots len 0 m m'
measure-join text out n slots len m fits room strings =
    let (m', returns, joined) =
      join_from text out n slots len fits (omega arith) n 0 m (omega arith) strings in
    (
      measure_lem text n slots len m fits
          (λ i l. let (string, short, apart) = strings i (omega arith) l in (string, short))
          (omega arith),
      m',
      returns,
      joined,
    )
