-- ===== src/Interrupts.antt =====
-- kernel/idt/ints.cpp and ints.h: the interrupt descriptor table, the dispatch of an interrupt,
-- and the text for a page fault. The table is a function of the vector.
pub mod Table
pub mod Fault
use Prim.Native.String.{String}
use oke_os.Prelude.{
  ℕ, zero, suc, ◌+◌, ◌*◌, ◌/◌, ◌%◌, ◌^◌, bit_and, bit_or, Bool, true, false, List, [], ◌∷◌, ◌++◌,
  ◌==◌, if◌then◌else◌, u8, u16, u32, u64, ◌<<<◌, ◌>>>◌, codes, length,
}
use oke_os.MemLib.{Memory, poke}

pub record InterruptDescriptor : Type 0 where
  pub address_low : ℕ
  pub selector : ℕ
  pub ist : ℕ
  pub flags : ℕ
  pub address_mid : ℕ
  pub address_high : ℕ
  pub reserved : ℕ

abbrev pub Idt : Type 0
Idt = ℕ → InterruptDescriptor

unfoldable pub set_idt_entry : ℕ → ℕ → ℕ → Idt → Idt
set_idt_entry vector handler dpl idt v =
    if u8 vector == v
    then record (idt v) {
      address_low = u16 (bit_and handler 0xffff);
      address_mid = u16 (bit_and (handler >>> 16) 0xffff);
      address_high = u32 (handler >>> 32);
      selector = 0x8;
      flags = u8 (bit_or (bit_or 0b1110 (bit_and dpl 0b11 <<< 5)) (1 <<< 7));
      ist = 0;
    }
    else idt v

-- The loop of `initInts` at the rounds left; `first` is the address of `vector_0_handler`.
unfoldable pub init_ints_loop : ℕ → ℕ → ℕ → Idt → Idt
init_ints_loop zero i first idt = idt
init_ints_loop (suc rounds) i first idt =
    init_ints_loop rounds (i + 1) first (set_idt_entry i (u64 (first + i * 16)) 0 idt)

unfoldable pub init_ints : ℕ → Idt → Idt
unfolding init_ints_loop set_idt_entry
init_ints first idt = init_ints_loop 256 0 first idt

-- `fixedPageFaultString` with the offset behind what was appended.
pub record FaultText : Type 0 where
  pub buffer : Memory
  pub offset : ℕ

unfoldable pub append_codes : List ℕ → FaultText → FaultText
append_codes [] t = t
append_codes (c ∷ cs) t =
    append_codes cs (record { buffer = poke t.buffer t.offset c; offset = t.offset + 1 })

-- The four calls of `append`, in the source's order.
unfoldable pub page_fault_string : ℕ → Memory → Memory
unfolding append_codes
page_fault_string error_code buffer =
    let present = bit_and error_code 1 in
    let write = bit_and (error_code >>> 1) 1 in
    let user = bit_and (error_code >>> 2) 1 in
    let instruction_fetch = bit_and (error_code >>> 4) 1 in
    let t₀ : FaultText = record { buffer = buffer; offset = 0 } in
    let t₁ =
      append_codes (codes (if user == 0 then "Supervisor Process " else "User Process ")) t₀ in
    let t₂ = append_codes (codes (if write == 0 then "read from " else "write to ")) t₁ in
    let t₃ = append_codes (codes (if instruction_fetch == 0 then "data " else "instruction ")) t₂ in
    let t₄ =
      append_codes
        (codes (if present == 0 then "non-present page entry" else "and caused a protection fault"))
        t₃ in
    t₄.buffer

-- What the dispatch does: a panic with a fixed text, a panic with the text in the buffer, or a
-- line on the serial port.
pub data Dispatched : Type 0 where
  general_protection : Dispatched
  page_fault : Memory → Dispatched
  unexpected : ℕ → Dispatched

unfoldable pub interrupt_dispatch : ℕ → ℕ → Memory → Dispatched
unfolding page_fault_string
interrupt_dispatch vector_number error_code buffer =
    if vector_number == 13
    then general_protection
    else if vector_number == 14
    then page_fault (page_fault_string error_code buffer)
    else unexpected vector_number
