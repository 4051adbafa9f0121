-- ===== src/Debug/Signed.antt =====
-- Signed numbers printed by `_kprintf`.
use oke_os.Prelude.{
  ◌⊎◌, inl, inr, ℕ, zero, suc, ◌+◌, ◌-◌, ◌^◌, ◌≤◌, ◌<◌, ◌≡◌, ◌∙◌, refl, ap, Bool, true, false, List,
  ◌∷◌, ◌++◌, arith, ◌==◌, leb, ◌&&◌, if◌then◌else◌,
}
use oke_os.MemLib.{Memory}
use oke_os.Framebuffer.{Framebuffer, Font}
use oke_os.Strings.Signed.{magnitude, PrintedSigned, itoa-Printed}
use oke_os.Debug.{Console}
use oke_os.Debug.Format.{print_loop, print_specifier, kprintf}
use oke_os.Debug.Write.{Plain, write_chars}
use oke_os.Debug.Printf.{Literal}
use oke_os.Debug.Number.{
  fits, bytes_at, length-bytes_at, bytes_at-Plain, IsNumber, Printed-IsNumber,
  print_digits-IsNumber, ready, conversion,
}

-- The characters of a number of `n` digits, with its sign.
abbrev pub text_size : ℕ → ℕ → ℕ → ℕ
text_size base value n = if leb (2 ^ 63) value && base == 10 then n + 1 else n

-- A sign in front of digits.
front :
    (str n : ℕ) (m : Memory)
    → m str ≡ b'-'
    → ((j : ℕ) → j < n → 45 ≤ m (str + 1 + j))
    → (j : ℕ) → j < n + 1
    → 45 ≤ m (str + j)
front str n m sign digits zero l =
    let at : str + 0 ≡ str = omega arith in omega (arith, sign, ap m at)
front str n m sign digits (suc j) l =
    let at : str + suc j ≡ str + 1 + j = omega arith in
    omega (arith, digits j (omega arith), ap m at)

signed-IsNumber :
    (base value str n : ℕ) {m : Memory}
    → PrintedSigned base value str n m
    → IsNumber (text_size base value n) str m
signed-IsNumber base value str n {m} (inl (negative, ten, sign, p)) =
    let signed : (leb (2 ^ 63) value && base == 10) ≡ true = ground arith in
    let d = Printed-IsNumber base (2 ^ 64 - value) (str + 1) n p in
    simp signed (record {
      digits = front str n m sign (λ j l. d.digits j l);
      ends = let at : str + (n + 1) ≡ str + 1 + n = omega arith in ap m at ∙ p.ends;
    })
signed-IsNumber base value str n {m} (inr (unsigned, p)) =
    let other : (leb (2 ^ 63) value && base == 10) ≡ false = ground arith in
    simp other (Printed-IsNumber base (magnitude value) str n p)

signed_fits :
    (base value str n : ℕ) {m : Memory}
    → 0 < base
    → 2 ^ 63 < base ^ 22
    → value < 2 ^ 64
    → PrintedSigned base value str n m
    → n < 23
signed_fits base value str n pos room small (inl (negative, ten, sign, p)) =
    fits base (2 ^ 64 - value) n pos (omega arith) p.needed
signed_fits base value str n pos room small (inr (unsigned, p)) =
    fits base (magnitude value) n pos (ground arith) p.needed

module _ (fb : Framebuffer) (font : Font) (serial terminal : Bool) (fuel buf : ℕ) where
  -- The conversion `c` prints a number to a base, with its sign.
  abbrev pub ShowsSigned : ℕ → ℕ → ℕ → List ℕ → List ℕ → List ℕ → Memory → Console → Type 0
  ShowsSigned c base value pre rest args m s =
      (n : ℕ) × (m' : Memory) × PrintedSigned base value buf n m'
      × ((a : ℕ) → (a < buf) ⊎ (buf + n + 1 < a) → m' a ≡ m a)
      × (n < 23)
      × (kprintf fb font serial terminal fuel buf (pre ++ b'%' ∷ c ∷ rest)
            (record { args = value ∷ args; memory = m; console = s })
          ≡ kprintf fb font serial terminal fuel buf rest (record {
            args = args;
            memory = m';
            console =
                write_chars fb font serial terminal (bytes_at (text_size base value n) buf m')
                  (write_chars fb font serial terminal pre s);
          }))

  module _ (pre rest : List ℕ) (value : ℕ) (args : List ℕ) (m : Memory) (s : Console)
      (literal : Literal pre) (plain : Plain pre) (idle : s.reading_anything ≡ false)
      (enough : 65 < fuel) (small : value < 2 ^ 64) where
    -- With no code or conversion in front of it and no code being read, `%d` and `%i` print the
    -- decimal digits of a 64-bit number, from the highest on and as many as it needs, with a minus sign in front of a negative
    -- one, and `%o` the octal digits of the absolute value, without a sign; the text behind is
    -- printed with the other arguments. Of the memory only the buffer changes, in its first 24 bytes of 32.
    -- More than 65 steps of fuel are enough.
    pub kprintf_signed :
        ShowsSigned b'd' 10 value pre rest args m s
        × ShowsSigned b'i' 10 value pre rest args m s
        × ShowsSigned b'o' 8 value pre rest args m s
    unfolding print_specifier print_loop
    kprintf_signed =
        let more : 64 < fuel = omega arith in
        let fine =
          ready fb font serial terminal fuel buf pre rest value args m s literal plain idle more
            small in
        let step =
          conversion fb font serial terminal fuel buf pre rest value args m s literal plain idle
            more small in
        let (n, m', e, short, p, others) =
          itoa-Printed fuel 10 value buf m (omega arith) (omega arith) (omega arith) small in
        let (k, m'', e', short', p', others') =
          itoa-Printed fuel 8 value buf m (omega arith) (omega arith) (omega arith) small in
        let fine' = signed_fits 10 value buf n (omega arith) (omega arith) (omega arith) p in
        let fine'' = signed_fits 8 value buf k (omega arith) (omega arith) (omega arith) p' in
        let number = signed-IsNumber 10 value buf n p in
        let octal = signed-IsNumber 8 value buf k p' in
        let size = text_size 10 value n in
        let low : size < fuel = ground arith in
        let size' = text_size 8 value k in
        let low' : size' < fuel = ground arith in
        let decimal =
          print_digits-IsNumber fb font serial terminal fuel buf size _ (λ digits. digits) args m m'
            _ e number low (bytes_at-Plain size buf number)
            (omega (arith, length-bytes_at size buf m')) fine in
        let eight =
          print_digits-IsNumber fb font serial terminal fuel buf size' _ (λ digits. digits) args m
            m'' _ e' octal low' (bytes_at-Plain size' buf octal)
            (omega (arith, length-bytes_at size' buf m'')) fine in
        (
          (n, m', p, others, fine', step b'd' _ refl decimal),
          (n, m', p, others, fine', step b'i' _ refl decimal),
          (k, m'', p', others', fine'', step b'o' _ refl eight),
        )
