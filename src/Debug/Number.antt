-- ===== src/Debug/Number.antt =====
-- Numbers printed by `_kprintf`.
use oke_os.Prelude.{
  fun_ext, Option, ◌⊎◌, ℕ, zero, suc, ◌+◌, ◌-◌, ◌^◌, ◌≤◌, ◌<◌, ◌≡◌, ◌∙◌, refl, sym, ap, Bool, false,
  ==_ne, some, List, [], ◌∷◌, ◌++◌, length, length-append, arith, ◌==◌,
}
use mathlib.Core.Path.{subst}
use oke_os.MemLib.{Memory}
use oke_os.Framebuffer.{Framebuffer, Font}
use oke_os.Strings.Convert.{digit_at}
use oke_os.Strings.Read.{IsDigit, digits_fit, Printed, uitoa-Printed}
use oke_os.Debug.{Console, c_string, zeros, padded}
use oke_os.Debug.Format.{
  Printing, then_do, print_loop, print_specifier, print_text, print_digits, kprintf,
}
use oke_os.Debug.Write.{Plain, write_chars, write_chars_reading, write_string-write_chars}
use oke_os.Debug.Printf.{Literal, Literal-print_loop}

-- The `n` bytes from `a` on.
abbrev pub bytes_at : ℕ → ℕ → Memory → List ℕ
bytes_at zero a m = []
bytes_at (suc n) a m = m a ∷ bytes_at n (a + 1) m

pub length-bytes_at : (n a : ℕ) (m : Memory) → length (bytes_at n a m) ≡ n
length-bytes_at zero a m = refl
length-bytes_at (suc n) a m = ap suc (length-bytes_at n (a + 1) m)

-- Digits or signs from `a` on, and a zero behind them.
pub record IsNumber (n a : ℕ) (m : Memory) : Type 0 where
  pub digits : (j : ℕ) → j < n → 45 ≤ m (a + j)
  pub ends : m (a + n) ≡ 0

IsNumber-next : (n a : ℕ) {m : Memory} → IsNumber (suc n) a m → IsNumber n (a + 1) m
IsNumber-next n a {m} s = record {
  digits = λ j l.
      let at : a + suc j ≡ a + 1 + j = omega arith in
      omega (arith, s.digits (suc j) (omega arith), ap m at);
  ends = let at : a + 1 + n ≡ a + suc n = omega arith in ap m at ∙ s.ends;
}

first_digit : (n a : ℕ) {m : Memory} → IsNumber (suc n) a m → 45 ≤ m a
first_digit n a {m} s =
    let at : a + 0 ≡ a = omega arith in omega (arith, s.digits 0 (omega arith), ap m at)

c_string-bytes_at :
    (n fuel a : ℕ) {m : Memory}
    → n < fuel
    → IsNumber n a m
    → c_string fuel a m ≡ some (bytes_at n a m)
unfolding c_string
c_string-bytes_at n zero a l s = absurd (omega arith)
c_string-bytes_at zero (suc fuel) a {m} l s =
    let at : a + 0 ≡ a = omega arith in let z : m a ≡ 0 = sym (ap m at) ∙ s.ends in rw z refl
c_string-bytes_at (suc n) (suc fuel) a {m} l s =
    let more : (m a == 0) ≡ false = ==_ne (m a) 0 (omega (arith, first_digit n a s)) in
    rw (more, c_string-bytes_at n fuel (a + 1) (omega arith) (IsNumber-next n a s)) refl

pub bytes_at-Plain : (n a : ℕ) {m : Memory} → IsNumber n a m → Plain (bytes_at n a m)
bytes_at-Plain zero a s = tt
bytes_at-Plain (suc n) a {m} s = (
  ==_ne (m a) b'$' (omega (arith, first_digit n a s)),
  bytes_at-Plain n (a + 1) (IsNumber-next n a s),
)

zeros-Plain : (n : ℕ) (text : List ℕ) → Plain text → Plain (zeros n ++ text)
zeros-Plain zero text p = p
zeros-Plain (suc n) text p = (refl, zeros-Plain n text p)

padded-Plain : (text : List ℕ) → Plain text → Plain (padded text)
unfolding padded
padded-Plain text p = zeros-Plain (16 - length text) text p

length-zeros : (n : ℕ) → length (zeros n) ≡ n
length-zeros zero = refl
length-zeros (suc n) = ap suc (length-zeros n)

-- A text with so many zeros in front of it.
abbrev filled : ℕ → List ℕ → List ℕ
filled zero text = text
filled (suc n) text = b'0' ∷ filled n text

-- A text filled up to 16 characters.
abbrev pub sixteen : List ℕ → List ℕ
sixteen text = filled (16 - length text) text

zeros-filled : (n : ℕ) (text : List ℕ) → zeros n ++ text ≡ filled n text
zeros-filled zero text = refl
zeros-filled (suc n) text = ap (λ t. b'0' ∷ t) (zeros-filled n text)

padded-sixteen : padded ≡ sixteen
unfolding padded
padded-sixteen = fun_ext λ text. zeros-filled (16 - length text) text

length-padded : (text : List ℕ) → length text ≤ 64 → length (padded text) ≤ 64
unfolding padded
length-padded text l =
    omega (arith, length-append (zeros (16 - length text)) text, length-zeros (16 - length text))

-- The digits of a 64-bit number.
pub fits :
    (base value n : ℕ) → 0 < base → value < base ^ 22 → (1 < n → base ^ (n - 1) ≤ value) → n < 23
fits base value n pos small needed =
    let l = digits_fit base value n 22 pos (omega arith) needed small in omega (arith, l)

IsDigit-high : (d : ℕ) {c : ℕ} → IsDigit d c → 48 ≤ c
IsDigit-high d i = ground arith

pub Printed-IsNumber :
    (base value str n : ℕ) {m : Memory} → Printed base value str n m → IsNumber n str m
Printed-IsNumber base value str n {m} p = record {
  digits = λ j l.
      let d = digit_at base value (n - 1 - j) in omega (arith, IsDigit-high d (p.digits j l));
  ends = p.ends;
}

Printed-Plain :
    (base value str n : ℕ) {m : Memory}
    → Printed base value str n m
    → Plain (padded (bytes_at n str m))
Printed-Plain base value str n {m} p =
    padded-Plain (bytes_at n str m) (bytes_at-Plain n str (Printed-IsNumber base value str n p))

pub Printed-sixteen :
    (base value str n : ℕ) {m : Memory}
    → Printed base value str n m
    → Plain (sixteen (bytes_at n str m))
Printed-sixteen base value str n {m} p =
    subst (λ layout. Plain (layout (bytes_at n str m))) padded-sixteen
      (Printed-Plain base value str n p)

module _ (fb : Framebuffer) (font : Font) (serial terminal : Bool) (fuel buf : ℕ) where
  abbrev pub shown : List ℕ → Console → Console
  shown = write_chars fb font serial terminal

  -- The conversion `c` prints a number to a base, in a layout.
  abbrev pub Shows :
      ℕ → ℕ → (List ℕ → List ℕ) → ℕ → List ℕ → List ℕ → List ℕ → Memory → Console → Type 0
  Shows c base layout value pre rest args m s =
      (n : ℕ) × (m' : Memory) × Printed base value buf n m'
      × ((a : ℕ) → (a < buf) ⊎ (buf + n < a) → m' a ≡ m a)
      × (n < 23)
      × (kprintf fb font serial terminal fuel buf (pre ++ b'%' ∷ c ∷ rest)
            (record { args = value ∷ args; memory = m; console = s })
          ≡ kprintf fb font serial terminal fuel buf rest (record {
            args = args;
            memory = m';
            console = shown (layout (bytes_at n buf m')) (shown pre s);
          }))

  pub print_digits-IsNumber :
      (n : ℕ) (converted : Option Memory) (layout : List ℕ → List ℕ) (args : List ℕ) (m m' : Memory)
      (s : Console)
      → converted ≡ some m'
      → IsNumber n buf m'
      → n < fuel
      → Plain (layout (bytes_at n buf m'))
      → length (layout (bytes_at n buf m')) < fuel
      → s.reading_anything ≡ false
      → print_digits fb font serial terminal fuel buf converted layout
          (record { args = args; memory = m; console = s })
        ≡ some (record { args = args; memory = m'; console = shown (layout (bytes_at n buf m')) s })
  unfolding print_digits print_text
  print_digits-IsNumber n converted layout args m m' s e p short plain small idle =
      let text = layout (bytes_at n buf m') in
      rw
        (
          e,
          c_string-bytes_at n fuel buf short p,
          write_string-write_chars fb font serial terminal fuel text s small plain idle,
        )
        refl

  module _ (pre rest : List ℕ) (value : ℕ) (args : List ℕ) (m : Memory) (s : Console)
      (literal : Literal pre) (plain : Plain pre) (idle : s.reading_anything ≡ false)
      (enough : 64 < fuel) (small : value < 2 ^ 64) where
    pub ready : (shown pre s).reading_anything ≡ false
    ready = write_chars_reading fb font serial terminal pre s plain idle

    -- A conversion, with what is left of the format.
    pub conversion :
        (c : ℕ) (q : Printing)
        → print_loop fb font serial terminal fuel buf
            (b'%' ∷ c ∷ rest)
            false
            (record { args = value ∷ args; memory = m; console = shown pre s })
          ≡ then_do
              (print_specifier fb font serial terminal fuel buf c
                (record { args = value ∷ args; memory = m; console = shown pre s }))
              (print_loop fb font serial terminal fuel buf rest false)
        → print_specifier fb font serial terminal fuel buf c
            (record { args = value ∷ args; memory = m; console = shown pre s })
          ≡ some q
        → kprintf fb font serial terminal fuel buf
            (pre ++ b'%' ∷ c ∷ rest)
            (record { args = value ∷ args; memory = m; console = s })
          ≡ kprintf fb font serial terminal fuel buf rest q
    unfolding kprintf
    conversion c q step e =
        Literal-print_loop fb font serial terminal fuel buf pre (b'%' ∷ c ∷ rest)
          (record { args = value ∷ args; memory = m; console = s }) literal
        ∙ step
        ∙ ap (λ r. then_do r (print_loop fb font serial terminal fuel buf rest false)) e

    -- With no code or conversion in front of it and no code being read, `%u` prints the decimal digits
    -- of a 64-bit argument, from the highest on and as many as it needs, and `%x` its hexadecimal
    -- digits, filled up with zeros on the left to 16; the text behind is printed with the other arguments. Of the memory only the first 23
    -- bytes of the buffer of 32 bytes change. More than 64 steps of fuel are enough.
    pub kprintf_unsigned :
        Shows b'u' 10 (λ digits. digits) value pre rest args m s
        × Shows b'x' 16 sixteen value pre rest args m s
    unfolding print_specifier print_loop
    kprintf_unsigned =
        let (n, m', e, short, p, others) =
          uitoa-Printed fuel 10 value buf m (omega arith) (omega arith) (omega arith) small in
        let (k, m'', e', short', p', others') =
          uitoa-Printed fuel 16 value buf m (omega arith) (omega arith) (omega arith) small in
        let hexadecimal = bytes_at k buf m'' in
        let wide = length-padded hexadecimal (omega (arith, length-bytes_at k buf m'')) in
        (
          (
            n,
            m',
            p,
            others,
            fits 10 value n (omega arith) (omega arith) p.needed,
            conversion b'u' _ refl (
                print_digits-IsNumber n _ (λ digits. digits) args m m' (shown pre s) e
                  (Printed-IsNumber 10 value buf n p) (omega arith)
                  (bytes_at-Plain n buf (Printed-IsNumber 10 value buf n p))
                  (omega (arith, length-bytes_at n buf m')) ready),
          ),
          subst (λ layout. Shows b'x' 16 layout value pre rest args m s) padded-sixteen
              (
                k,
                m'',
                p',
                others',
                fits 16 value k (omega arith) (omega arith) p'.needed,
                conversion b'x' _ refl (
                    print_digits-IsNumber k _ padded args m m'' (shown pre s) e'
                      (Printed-IsNumber 16 value buf k p') (omega arith)
                      (Printed-Plain 16 value buf k p') (omega (arith, wide)) ready),
              ),
        )
