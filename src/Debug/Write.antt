-- ===== src/Debug/Write.antt =====
-- `__write` and `__writeChar` on the same text.
use oke_os.Prelude.{
  ◌⊎◌, ==_iff, ℕ, zero, suc, ◌<◌, ◌≡◌, ◌≢◌, ◌∙◌, refl, ap, sym, Bool, true, false, inl, inr,
  Bool-cases, Option, none, some, List, [], ◌∷◌, ◌++◌, length, All, arith, ◌==◌, if◌then◌else◌,
}
use oke_os.Framebuffer.{Framebuffer, Font}
use oke_os.Terminal.Cursor.{IsValid, writechar-IsValid}
use oke_os.Debug.{Console, select, emit, write_char, write_next, write_string, terminal_write}

-- No code starts in the text.
abbrev pub Plain : List ℕ → Type 0
Plain str = All (λ c. (c == b'$') ≡ false) str

-- A property of both branches.
pub pick : {A : Type 0} (P : A → Type 0) (b : Bool) (x y : A) → P x → P y → P (if b then x else y)
pick P true x y p q = p
pick P false x y p q = q

-- The property holds of the result, if there is one.
abbrev pub Leaves : {A : Type 0} → (A → Type 0) → Option A → Type 0
Leaves P none = Unit {0}
Leaves P (some a) = P a

module _ (fb : Framebuffer) (font : Font) (serial terminal : Bool) where
  -- The characters one by one.
  abbrev pub write_chars : List ℕ → Console → Console
  write_chars [] s = s
  write_chars (c ∷ str) s = write_chars str (write_char fb font serial terminal c s)

  emit_reading :
      (c : ℕ) (s : Console)
      → (emit fb font serial terminal c s).reading_anything ≡ s.reading_anything
  unfolding emit
  emit_reading c s = ground arith

  plain_char :
      (c : ℕ) (s : Console)
      → (c == b'$') ≡ false
      → s.reading_anything ≡ false
      → write_char fb font serial terminal c s ≡ emit fb font serial terminal c s
  unfolding write_char
  plain_char c s plain idle = rw (plain, idle) refl

  pub write_chars_reading :
      (str : List ℕ) (s : Console)
      → Plain str
      → s.reading_anything ≡ false
      → (write_chars str s).reading_anything ≡ false
  write_chars_reading [] s plain idle = idle
  write_chars_reading (c ∷ str) s plain idle =
      write_chars_reading str (write_char fb font serial terminal c s) plain.1 (
        ap (λ (s' : Console). s'.reading_anything) (plain_char c s plain.0 idle)
        ∙ emit_reading c s
        ∙ idle)

  plain_next :
      (c : ℕ) (str : List ℕ) (s : Console)
      → (c == b'$') ≡ false
      → s.reading_anything ≡ false
      → write_next fb font serial terminal c str s ≡ (str, emit fb font serial terminal c s)
  unfolding write_next
  plain_next c str s plain idle = rw (plain, idle) refl

  step :
      (fuel c : ℕ) (str : List ℕ) (s : Console) {str' : List ℕ} {s' : Console}
      → write_next fb font serial terminal c str s ≡ (str', s')
      → write_string fb font serial terminal (suc fuel) (c ∷ str) s
        ≡ write_string fb font serial terminal fuel str' s'
  unfolding write_string
  step fuel c str s e = ap (λ r. write_string fb font serial terminal fuel r.0 r.1) e

  -- On a text without codes `__write` ends and does what `__writeChar` does with each character,
  -- where no code is being read.
  pub write_string-write_chars :
      (fuel : ℕ) (str : List ℕ) (s : Console)
      → length str < fuel
      → Plain str
      → s.reading_anything ≡ false
      → write_string fb font serial terminal fuel str s ≡ some (write_chars str s)
  unfolding write_string
  write_string-write_chars zero str s l plain idle = absurd (omega arith)
  write_string-write_chars (suc fuel) [] s l plain idle = refl
  write_string-write_chars (suc fuel) (c ∷ str) s l plain idle =
      step fuel c str s (plain_next c str s plain.0 idle)
      ∙ write_string-write_chars fuel str (emit fb font serial terminal c s) (omega arith) plain.1
          (emit_reading c s ∙ idle)
      ∙ sym (ap (λ s'. some (write_chars str s')) (plain_char c s plain.0 idle))

  -- At a `$` it stays there for ever.
  stuck :
      (fuel : ℕ) (str : List ℕ) (s : Console)
      → write_string fb font serial terminal fuel (b'$' ∷ str) s ≡ none
  unfolding write_string write_next
  stuck zero str s = refl
  stuck (suc fuel) str s = stuck fuel str (record s { reading_anything = true })

  -- A `$` behind a plain text is reached, where no code is being read, and `__write` does not end.
  never_ends :
      (pre rest : List ℕ) (s : Console) (fuel : ℕ)
      → Plain pre
      → s.reading_anything ≡ false
      → write_string fb font serial terminal fuel (pre ++ b'$' ∷ rest) s ≡ none
  unfolding write_string
  never_ends [] rest s fuel plain idle = stuck fuel rest s
  never_ends (c ∷ pre) rest s zero plain idle = refl
  never_ends (c ∷ pre) rest s (suc fuel) plain idle =
      step fuel c (pre ++ b'$' ∷ rest) s (plain_next c (pre ++ b'$' ∷ rest) s plain.0 idle)
      ∙ never_ends pre rest (emit fb font serial terminal c s) fuel plain.1
          (emit_reading c s ∙ idle)

  -- A text is plain, or has a first `$`.
  abbrev Coded : List ℕ → Type 0
  Coded str = (pre : List ℕ) × (rest : List ℕ) × Plain pre × (str ≡ pre ++ b'$' ∷ rest)

  Plain-or_Coded : (str : List ℕ) → Plain str ⊎ Coded str
  Plain-or_Coded [] = inl tt
  Plain-or_Coded (c ∷ str) = elim (Bool-cases (c == b'$')) [
    | inl code ↦ inr ([], str, tt, ap (λ (d : ℕ). d ∷ str) ((==_iff c b'$').0 code))
    | inr plain ↦ elim (Plain-or_Coded str) [
      | inl p ↦ inl (plain, p)
      | inr (pre, rest, p, e) ↦ inr (c ∷ pre, rest, (plain, p), ap (λ zs. c ∷ zs) e)
    ]
  ]

  -- Where no code is being read, `__write` ends exactly for the texts without a `$`: for these a step
  -- for each character and one more are enough, and the result is that of `__writeChar` on each
  -- character; at a `$` it stays for ever.
  pub write_string_ends :
      (str : List ℕ) (s : Console)
      → s.reading_anything ≡ false
      → (Plain str
          → write_string fb font serial terminal (suc (length str)) str s
            ≡ some (write_chars str s))
        × ((fuel : ℕ) → write_string fb font serial terminal fuel str s ≢ none → Plain str)
  write_string_ends str s idle = (
    λ plain. write_string-write_chars (suc (length str)) str s (omega arith) plain idle,
    λ fuel ends. elim (Plain-or_Coded str) [
      | inl plain ↦ plain
      | inr (pre, rest, plain, e) ↦ absurd (
          ends (
            ap (λ zs. write_string fb font serial terminal fuel zs s) e
            ∙ never_ends pre rest s fuel plain idle))
    ],
  )

  emit-IsValid :
      (c : ℕ) (s : Console)
      → IsValid s.terminal
      → IsValid (emit fb font serial terminal c s).terminal
  unfolding emit terminal_write
  emit-IsValid c s v = elim (Bool-cases terminal) [
    | inr silent ↦ elim (Bool-cases serial) [
      | inl sends ↦ rw (silent, sends) v
      | inr mute ↦ rw (silent, mute) v
    ]
    | inl shows ↦ elim (Bool-cases serial) [
      | inl sends ↦ rw (shows, sends) (writechar-IsValid fb font c v)
      | inr mute ↦ rw (shows, mute) (writechar-IsValid fb font c v)
    ]
  ]

  select-IsValid : (c : ℕ) (s : Console) → IsValid s.terminal → IsValid (select c s).terminal
  unfolding select
  select-IsValid c s v = elim (Bool-cases s.reading_color) [
    | inl reads ↦
        simp reads
          (record { columns = v.columns; rows = v.rows; in_line = v.in_line; in_page = v.in_page })
    | inr starts ↦ elim (Bool-cases (c == b'c')) [
      | inl color ↦ rw (starts, color) v
      | inr other ↦ rw (starts, other) v
    ]
  ]

  pub write_char-IsValid :
      (c : ℕ) (s : Console)
      → IsValid s.terminal
      → IsValid (write_char fb font serial terminal c s).terminal
  unfolding write_char
  write_char-IsValid c s v =
      pick (λ s'. IsValid s'.terminal) (c == b'$') (record s { reading_anything = true })
        (if s.reading_anything then select c s else emit fb font serial terminal c s) v
        (pick (λ s'. IsValid s'.terminal) s.reading_anything (select c s)
          (emit fb font serial terminal c s) (select-IsValid c s v) (emit-IsValid c s v))

  write_next-IsValid :
      (c : ℕ) (str : List ℕ) (s : Console)
      → IsValid s.terminal
      → IsValid (write_next fb font serial terminal c str s).1.terminal
  unfolding write_next
  write_next-IsValid c str s v =
      pick (λ (r : List ℕ × Console). IsValid r.1.terminal) (c == b'$')
        (c ∷ str, record s { reading_anything = true })
        (if s.reading_anything
          then (c ∷ str, select c s)
          else (str, emit fb font serial terminal c s))
        v
        (pick (λ (r : List ℕ × Console). IsValid r.1.terminal) s.reading_anything
          (c ∷ str, select c s) (str, emit fb font serial terminal c s) (select-IsValid c s v)
          (emit-IsValid c s v))

  pub write_string-IsValid :
      (fuel : ℕ) (str : List ℕ) (s : Console)
      → IsValid s.terminal
      → Leaves (λ s'. IsValid s'.terminal) (write_string fb font serial terminal fuel str s)
  unfolding write_string
  write_string-IsValid zero str s v = tt
  write_string-IsValid (suc fuel) [] s v = v
  write_string-IsValid (suc fuel) (c ∷ str) s v =
      let r = write_next fb font serial terminal c str s in
      write_string-IsValid fuel r.0 r.1 (write_next-IsValid c str s v)
