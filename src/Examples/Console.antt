-- ===== src/Examples/Console.antt =====
-- Concrete runs for kernel/debug.cpp.
use oke_os.Prelude.{
  ℕ, ◌-◌, ◌^◌, suc, ◌≡◌, ◌≢◌, refl, true, false, some, none, [], ◌∷◌, ◌++◌, arith, ◌==◌,
  if◌then◌else◌, length, inl,
}
use oke_os.MemLib.{Memory}
use oke_os.Terminal.Cursor.{IsValid}
use oke_os.Debug.{c_string, Console, write_string}
use oke_os.Debug.Format.{Printing, kprintf}
use oke_os.Debug.Write.{Plain, Leaves, write_chars, write_string_ends}
use oke_os.Panic.Return.{IsCalm, Comes, panic-ends}
use oke_os.Debug.Signed.{ShowsSigned, kprintf_signed}
use oke_os.Debug.Number.{sixteen, Shows, kprintf_unsigned}
use oke_os.Debug.Printf.{kprintf-Literal, kprintf_string, kprintf-OnPage}
use oke_os.Panic.{panic, trace_and_show}
use oke_os.Panic.Report.{reported, panic-Plain}
use oke_os.Examples.Devices.{frame, font, terminal, terminal-IsValid, hi}

abbrev pub console : Console
console = record { reading_anything = false; reading_color = false; terminal = terminal; sent = [] }

write_string_ends_example :
    (Plain hi
      → write_string frame font true true (suc (length hi)) hi console
        ≡ some (write_chars frame font true true hi console))
    × ((fuel : ℕ) → write_string frame font true true fuel hi console ≢ none → Plain hi)
write_string_ends_example = write_string_ends frame font true true hi console refl

-- The text `hi` at the address 7.
abbrev memory : Memory
memory = λ a. if a == 7 then 72 else if a == 8 then 105 else 0

abbrev printing : Printing
printing = record { args = 7 ∷ 5 ∷ []; memory = memory; console = console }

kprintf-Literal_example :
    (kprintf frame font true true 70 100 hi printing
      ≡ some (record printing { console = write_chars frame font true true hi console }))
    × (kprintf frame font true true 70 100 (hi ++ b'%' ∷ b'%' ∷ b'u' ∷ []) printing
        ≡ kprintf frame font true true 70 100 (hi ++ b'%' ∷ b'u' ∷ []) printing)
    × (kprintf frame font true true 70 100 (hi ++ b'%' ∷ b'%' ∷ []) printing
        ≡ kprintf frame font true true 70 100 hi printing)
kprintf-Literal_example =
    kprintf-Literal frame font true true 70 100 hi (b'u' ∷ []) printing (refl, (refl, tt))

hi_there : c_string 70 7 memory ≡ some hi
unfolding c_string
hi_there = refl

kprintf_string_example :
    kprintf frame font true true 70 100 (hi ++ b'%' ∷ b's' ∷ hi) printing
    ≡ kprintf frame font true true 70 100 hi (record {
      args = 5 ∷ [];
      memory = memory;
      console = write_chars frame font true true hi (write_chars frame font true true hi console);
    })
kprintf_string_example =
    kprintf_string frame font true true 70 100 hi hi hi 7 (5 ∷ []) memory console (refl, (refl, tt))
      (refl, (refl, tt)) refl hi_there (refl, (refl, tt)) (omega arith)

kprintf-OnPage_example :
    Leaves
      (λ p'. IsValid p'.console.terminal)
      (kprintf frame font true true 70 100 (b'%' ∷ b'x' ∷ []) printing)
kprintf-OnPage_example =
    kprintf-OnPage frame font true true 70 100 (b'%' ∷ b'x' ∷ []) printing terminal-IsValid

panic-Plain_example :
    (Plain hi
      → panic frame font 70 100 7 0 printing
        ≡ trace_and_show frame font 70 100 7 0 (record {
          args = [];
          memory = memory;
          console = reported frame font 70 100 hi console;
        }))
    × (panic frame font 70 100 7 0 printing ≢ none → Plain hi)
panic-Plain_example = panic-Plain frame font 70 100 7 0 hi printing refl hi_there (omega arith)

kprintf_unsigned_example :
    Shows frame font true true 70 100 b'u' 10 (λ digits. digits) 7 hi hi (5 ∷ []) memory console
    × Shows frame font true true 70 100 b'x' 16 sixteen 7 hi hi (5 ∷ []) memory console
kprintf_unsigned_example =
    kprintf_unsigned frame font true true 70 100 hi hi 7 (5 ∷ []) memory console (refl, (refl, tt))
      (refl, (refl, tt)) refl (omega arith) (omega arith)

printing-IsCalm : IsCalm frame font 70 100 7 hi printing
printing-IsCalm = record { idle = refl; message = hi_there }

panic-ends_example : Comes frame font 70 100 7 hi (panic frame font 70 100 7 8 printing)
panic-ends_example =
    panic-ends frame font 70 100 7 hi 8 printing (refl, (refl, tt)) (omega arith) (omega arith)
      (inl (omega arith)) printing-IsCalm

-- The number -5, and the end of the format.
kprintf_signed_example :
    let value = 2 ^ 64 - 5 in
    ShowsSigned frame font true true 70 100 b'd' 10 value hi [] (5 ∷ []) memory console
    × ShowsSigned frame font true true 70 100 b'i' 10 value hi [] (5 ∷ []) memory console
    × ShowsSigned frame font true true 70 100 b'o' 8 value hi [] (5 ∷ []) memory console
kprintf_signed_example =
    kprintf_signed frame font true true 70 100 hi [] (2 ^ 64 - 5) (5 ∷ []) memory console
      (refl, (refl, tt)) (refl, (refl, tt)) refl (omega arith) (omega arith)
