-- ===== src/Terminal/Cursor.antt =====
-- The cursor of the terminal.
use oke_os.Prelude.{
  ℕ, ◌+◌, ◌≤◌, ◌<◌, ◌≡◌, ◌∙◌, refl, false, List, [], ◌∷◌, arith, ◌==◌, length, All,
}
use oke_os.Framebuffer.{Framebuffer, Font}
use oke_os.Terminal.{Terminal, init, writechar, write, writeln}

-- The limits are those that `init` allows, and the cursor is within them.
pub record IsValid (t : Terminal) : Type 0 where
  pub columns : t.chars_per_line ≤ 256
  pub rows : t.max_lines ≤ 128
  pub in_line : t.char_x ≤ t.chars_per_line
  pub in_page : t.char_y ≤ t.max_lines

-- `init` on a terminal whose cursor is at the origin.
pub init-IsValid :
    (fb : Framebuffer) (t : Terminal) → t.char_x ≡ 0 → t.char_y ≡ 0 → IsValid (init fb t)
unfolding init
init-IsValid fb t x y = ground arith

module _ (fb : Framebuffer) (font : Font) where
  pub writechar-IsValid : (c : ℕ) {t : Terminal} → IsValid t → IsValid (writechar fb font c t)
  unfolding writechar
  writechar-IsValid c v = ground arith

  -- The limits of `t` are those of `t'`.
  abbrev pub Limits : Terminal → Terminal → Type 0
  Limits t t' = (t'.chars_per_line ≡ t.chars_per_line) × (t'.max_lines ≡ t.max_lines)

  writechar-Limits : (c : ℕ) (t : Terminal) → Limits t (writechar fb font c t)
  unfolding writechar
  writechar-Limits c t = ground arith

  write-Limits : (str : List ℕ) (t : Terminal) → Limits t (write fb font str t)
  unfolding write
  write-Limits [] t = (refl, refl)
  write-Limits (c ∷ str) t =
      let first = writechar-Limits c t in
      let rest = write-Limits str (writechar fb font c t) in (rest.0 ∙ first.0, rest.1 ∙ first.1)

  write-IsValid : (str : List ℕ) {t : Terminal} → IsValid t → IsValid (write fb font str t)
  unfolding write
  write-IsValid [] v = v
  write-IsValid (c ∷ str) v = write-IsValid str (writechar-IsValid c v)

  writechar_newline : (t : Terminal) → (writechar fb font b'\n' t).char_x ≡ 0
  unfolding writechar
  writechar_newline t = ground arith

  -- A plain character in front of the end of the line.
  writechar_plain :
      (c : ℕ) {t : Terminal}
      → IsValid t
      → (c == b'\n') ≡ false
      → t.char_x < t.chars_per_line
      → ((writechar fb font c t).char_x ≡ t.char_x + 1)
        × ((writechar fb font c t).char_y ≡ t.char_y)
        × ((writechar fb font c t).chars_per_line ≡ t.chars_per_line)
  unfolding writechar
  writechar_plain c v plain h = ground arith

  -- Whatever is written, the cursor stays on the page, and the limits stay what they were.
  pub writeln-IsValid :
      (str : List ℕ) {t : Terminal}
      → IsValid t
      → IsValid (write fb font str t)
        × IsValid (writeln fb font str t)
        × ((writeln fb font str t).char_x ≡ 0)
        × Limits t (write fb font str t)
        × Limits t (writeln fb font str t)
  unfolding writeln
  writeln-IsValid str {t} v = (
    write-IsValid str v,
    writechar-IsValid b'\n' (write-IsValid str v),
    writechar_newline (write fb font str t),
    write-Limits str t,
    let line = writechar-Limits b'\n' (write fb font str t) in
        let text = write-Limits str t in (line.0 ∙ text.0, line.1 ∙ text.1),
  )

  -- A text without line breaks that fits the rest of the line moves the cursor by its length.
  pub write_fits :
      (str : List ℕ) {t : Terminal}
      → IsValid t
      → All (λ c. (c == b'\n') ≡ false) str
      → t.char_x + length str ≤ t.chars_per_line
      → ((write fb font str t).char_x ≡ t.char_x + length str)
        × ((write fb font str t).char_y ≡ t.char_y)
  unfolding write
  write_fits [] v plain h = (omega arith, refl)
  write_fits (c ∷ str) {t} v plain h =
      let step = writechar_plain c v plain.0 (omega arith) in
      let rest = write_fits str (writechar-IsValid c v) plain.1 (omega (arith, step)) in
      (omega (arith, step, rest), omega (arith, step, rest))
