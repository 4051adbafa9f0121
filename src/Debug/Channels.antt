-- ===== src/Debug/Channels.antt =====
-- The functions of kernel/debug.cpp that pass a format and its arguments on to `_kprintf`, for the
-- terminal, the serial port or both. The address of the format is read here.
use oke_os.Prelude.{ℕ, true, false, Option}
use oke_os.Framebuffer.{Framebuffer, Font}
use oke_os.Debug.{c_string}
use oke_os.Debug.Format.{Printing, then_do, kprintf}

module _ (fb : Framebuffer) (font : Font) (fuel buf : ℕ) where
  unfoldable pub vakprintf : ℕ → Printing → Option Printing
  unfolding c_string kprintf
  vakprintf str p =
      then_do (c_string fuel str p.memory) λ text. kprintf fb font false true fuel buf text p

  unfoldable pub vakprintf_both : ℕ → Printing → Option Printing
  unfolding c_string kprintf
  vakprintf_both str p =
      then_do (c_string fuel str p.memory) λ text. kprintf fb font true true fuel buf text p

  unfoldable pub vakprintf_serial : ℕ → Printing → Option Printing
  unfolding c_string kprintf
  vakprintf_serial str p =
      then_do (c_string fuel str p.memory) λ text. kprintf fb font true false fuel buf text p
