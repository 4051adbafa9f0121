-- ===== src/Interrupts/Table.antt =====
-- The table that `initInts` fills.
use oke_os.Prelude.{
  ℕ, zero, suc, ◌+◌, ◌*◌, ◌/◌, ◌%◌, ◌^◌, ◌≤◌, ◌<◌, ◌≡◌, refl, ◌∙◌, inl, inr, Bool-cases, false,
  arith, ◌==◌, u64,
}
use oke_os.Prelude.Bits.{bit_and_mask}
use oke_os.Interrupts.{InterruptDescriptor, Idt, set_idt_entry, init_ints_loop, init_ints}

-- The processor's reading of a descriptor: the address is put together from its three parts.
abbrev pub handler_address : InterruptDescriptor → ℕ
handler_address d = d.address_low + d.address_mid * 2 ^ 16 + d.address_high * 2 ^ 32

-- A present 64-bit interrupt gate of the kernel, without a stack table.
pub record IsKernelGate (handler : ℕ) (d : InterruptDescriptor) : Type 0 where
  pub address : handler_address d ≡ handler
  pub selector : d.selector ≡ 8
  pub present : d.flags / 2 ^ 7 ≡ 1
  pub privilege : d.flags / 2 ^ 5 % 4 ≡ 0
  pub gate_type : d.flags % 2 ^ 4 ≡ 14
  pub no_ist : d.ist ≡ 0

set_idt_entry-IsKernelGate :
    (v handler : ℕ) (idt : Idt)
    → v < 256
    → handler < 2 ^ 64
    → IsKernelGate handler (set_idt_entry v handler 0 idt v)
unfolding set_idt_entry
set_idt_entry-IsKernelGate v handler idt h k = record {
  address = ground (arith, bit_and_mask 16 handler, bit_and_mask 16 (handler / 2 ^ 16));
  selector = ground arith;
  present = ground arith;
  privilege = ground arith;
  gate_type = ground arith;
  no_ist = ground arith;
}

set_idt_entry_other :
    (v handler dpl : ℕ) (idt : Idt) (w : ℕ)
    → v < 256
    → (v == w) ≡ false
    → set_idt_entry v handler dpl idt w ≡ idt w
unfolding set_idt_entry
set_idt_entry_other v handler dpl idt w h k = ground arith

init_ints_loop_below :
    (rounds i first : ℕ) (idt : Idt) (v : ℕ)
    → i + rounds ≤ 256
    → v < i
    → init_ints_loop rounds i first idt v ≡ idt v
unfolding init_ints_loop
init_ints_loop_below zero i first idt v h k = refl
init_ints_loop_below (suc rounds) i first idt v h k =
    init_ints_loop_below rounds (i + 1) first _ v (omega arith) (omega arith)
    ∙ set_idt_entry_other i (u64 (first + i * 16)) 0 idt v (omega arith) (ground arith)

init_ints_loop-IsKernelGate :
    (rounds i first : ℕ) (idt : Idt) (v : ℕ)
    → i + rounds ≤ 256
    → first + 4096 ≤ 2 ^ 64
    → i ≤ v
    → v < i + rounds
    → IsKernelGate (first + v * 16) (init_ints_loop rounds i first idt v)
unfolding init_ints_loop
init_ints_loop-IsKernelGate zero i first idt v h f k l = absurd (omega arith)
init_ints_loop-IsKernelGate (suc rounds) i first idt v h f k l = elim (Bool-cases (i == v)) [
  | inl here ↦
      let e : i ≡ v = ground arith in
      let room : u64 (first + i * 16) ≡ first + v * 16 = omega arith in
      let same =
        init_ints_loop_below rounds (i + 1) first (set_idt_entry i (u64 (first + i * 16)) 0 idt) v
          (omega arith) (omega arith) in
      rw (same, room, e)
        (set_idt_entry-IsKernelGate v (first + v * 16) idt (omega arith) (omega arith))
  | inr later ↦
      init_ints_loop-IsKernelGate rounds (i + 1) first _ v (omega arith) f (ground arith)
        (omega arith)
]

init_ints-loop : (first : ℕ) (idt : Idt) → init_ints first idt ≡ init_ints_loop 256 0 first idt
unfolding init_ints
init_ints-loop first idt = refl

-- After `initInts` every vector has a present kernel interrupt gate whose address is that of its
-- own 16-byte stub.
pub init_ints-IsKernelGate :
    (first : ℕ) (idt : Idt) (v : ℕ)
    → first + 4096 ≤ 2 ^ 64
    → v < 256
    → IsKernelGate (first + v * 16) (init_ints first idt v)
init_ints-IsKernelGate first idt v f h =
    rw (init_ints-loop first idt)
      (init_ints_loop-IsKernelGate 256 0 first idt v (omega arith) f (omega arith) (omega arith))
