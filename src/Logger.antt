-- ===== src/Logger.antt =====
-- kernel/lib/logger.h: a logger joins its name and the text with a `FastStringBuilder`, prints the
-- result, and deletes the builder. Texts are given by their addresses.
use oke_os.Prelude.{ℕ, Option, none, some, List}
use oke_os.Framebuffer.{Framebuffer, Font}
use oke_os.PageFrame.{done}
use oke_os.Heap.{Heap, malloc}
use oke_os.Heap.Attempt.{Attempt, ◌then_try◌, allocate}
use oke_os.Debug.{Console}
use oke_os.Debug.Format.{Printing}
use oke_os.Debug.Channels.{vakprintf, vakprintf_both, vakprintf_serial}
use oke_os.Builder.{Builder, builder_size, new_builder, append, build, delete_builder}

pub data LoggerTarget : Type 0 where
  no_target terminal serial both : LoggerTarget

pub record Logger : Type 0 where
  pub tag : ℕ
  pub nspace : ℕ
  pub target : LoggerTarget

-- The constructor.
unfoldable pub new_logger : ℕ → ℕ → Logger
new_logger tag nspace = record { tag = tag; nspace = nspace; target = both }

-- The addresses of the constant texts: "$c8[", "/", "\n", the three kinds of message, and what the
-- builder reports.
pub record Literals : Type 0 where
  pub opening : ℕ
  pub slash : ℕ
  pub newline : ℕ
  pub info_kind : ℕ
  pub warn_kind : ℕ
  pub error_kind : ℕ
  pub overflow : ℕ
  pub unable : ℕ

-- The seven parts.
unfoldable pub append_all : Literals → Logger → ℕ → ℕ → Builder → Builder
unfolding append
append_all literals logger kind str b =
    let add = append literals.overflow in
    add literals.newline (
      add str (
        add kind
          (add logger.tag (add literals.slash (add logger.nspace (add literals.opening b))))))

-- `text` is the fuel of `strlen`. The text is built and printed, and the builder is deleted.
unfoldable pub print_and_delete :
    ℕ
    → ℕ
    → Literals
    → (ℕ → Printing → Option Printing)
    → ℕ
    → List ℕ
    → Console
    → Builder
    → Heap
    → Attempt (Heap × Console)
unfolding build delete_builder
print_and_delete text pml4 literals print this args s b h =
    build text pml4 literals.unable b h then_try λ (str, b', h').
    elim (print str (record { args = args; memory = h'.memory; console = s })) [
      | none ↦ none
      | some p ↦ some (done (delete_builder this b' (record h' { memory = p.memory }), p.console))
    ]

-- `fuel` and `buf` are those of `_kprintf`, and `memory` is what the array of the builder held before.
module _ (fb : Framebuffer) (font : Font) (fuel buf text pml4 : ℕ) (literals : Literals)
    (memory : ℕ → ℕ) where
  unfoldable pub internal_log : Logger → ℕ → ℕ → List ℕ → Console → Heap → Attempt (Heap × Console)
  unfolding malloc new_builder append_all print_and_delete vakprintf vakprintf_both vakprintf_serial
      delete_builder
  internal_log logger kind str args s h = allocate pml4 builder_size h then_try λ (this, h₁).
      new_builder pml4 memory 7 h₁ then_try λ (b, h₂).
      let b' = append_all literals logger kind str b in
      elim logger.target [
        | both ↦
            print_and_delete text pml4 literals (vakprintf_both fb font fuel buf) this args s b' h₂
        | serial ↦
            print_and_delete text pml4 literals (vakprintf_serial fb font fuel buf) this args s b'
              h₂
        | terminal ↦
            print_and_delete text pml4 literals (vakprintf fb font fuel buf) this args s b' h₂
        | no_target ↦ some (done (delete_builder this b' h₂, s))
      ]

  unfoldable pub info : Logger → ℕ → List ℕ → Console → Heap → Attempt (Heap × Console)
  unfolding internal_log
  info logger str args s h = internal_log logger literals.info_kind str args s h

  unfoldable pub warn : Logger → ℕ → List ℕ → Console → Heap → Attempt (Heap × Console)
  unfolding internal_log
  warn logger str args s h = internal_log logger literals.warn_kind str args s h

  unfoldable pub error : Logger → ℕ → List ℕ → Console → Heap → Attempt (Heap × Console)
  unfolding internal_log
  error logger str args s h = internal_log logger literals.error_kind str args s h
