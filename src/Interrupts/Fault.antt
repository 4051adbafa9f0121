-- ===== src/Interrupts/Fault.antt =====
-- The text of a page fault.
use oke_os.Prelude.{
  ℕ, ◌+◌, ◌≤◌, ◌<◌, ◌≡◌, ◌∙◌, refl, ap, Bool, true, false, bit_and, arith, ◌==◌, if◌then◌else◌,
  ◌>>>◌, List, [], ◌∷◌, ◌++◌, codes, length, length-append,
}
use Prim.Native.String.{String}
use oke_os.MemLib.{Memory, poke}
use oke_os.Interrupts.{FaultText, append_codes, page_fault_string}

-- The parts of the text, one for each bit that is looked at.
abbrev who : ℕ → List ℕ
who e = codes (if bit_and (e >>> 2) 1 == 0 then "Supervisor Process " else "User Process ")

abbrev access : ℕ → List ℕ
access e = codes (if bit_and (e >>> 1) 1 == 0 then "read from " else "write to ")

abbrev target : ℕ → List ℕ
target e = codes (if bit_and (e >>> 4) 1 == 0 then "data " else "instruction ")

abbrev cause : ℕ → List ℕ
cause e =
    codes (if bit_and e 1 == 0 then "non-present page entry" else "and caused a protection fault")

pub fault_parts : ℕ → List ℕ
fault_parts e = who e ++ (access e ++ (target e ++ cause e))

-- A list of bytes laid over memory.
abbrev pub overlay : List ℕ → ℕ → Memory → Memory
overlay [] o m a = m a
overlay (c ∷ cs) o m a = if o == a then c else overlay cs (o + 1) m a

append_codes_below :
    (cs : List ℕ) (t : FaultText) (a : ℕ) → a < t.offset → (append_codes cs t).buffer a ≡ t.buffer a
unfolding append_codes
append_codes_below [] t a h = refl
append_codes_below (c ∷ cs) t a h = ground (
  arith,
  append_codes_below cs (record { buffer = poke t.buffer t.offset c; offset = t.offset + 1 }) a,
)

overlay-poke :
    (cs : List ℕ) (o p c : ℕ) (m : Memory) (a : ℕ)
    → (p == a) ≡ false
    → overlay cs o (poke m p c) a ≡ overlay cs o m a
overlay-poke [] o p c m a h = ground arith
overlay-poke (d ∷ cs) o p c m a h = ground (arith, overlay-poke cs (o + 1) p c m a)

append_codes-overlay :
    (cs : List ℕ) (t : FaultText) (a : ℕ)
    → (append_codes cs t).buffer a ≡ overlay cs t.offset t.buffer a
unfolding append_codes
append_codes-overlay [] t a = refl
append_codes-overlay (c ∷ cs) t a =
    let t' : FaultText = record { buffer = poke t.buffer t.offset c; offset = t.offset + 1 } in
    ground (
      arith,
      append_codes-overlay cs t' a,
      append_codes_below cs t' a,
      overlay-poke cs (t.offset + 1) t.offset c t.buffer a,
    )

append_codes-append :
    (xs ys : List ℕ) (t : FaultText)
    → append_codes (xs ++ ys) t ≡ append_codes ys (append_codes xs t)
unfolding append_codes
append_codes-append [] ys t = refl
append_codes-append (x ∷ xs) ys t =
    append_codes-append xs ys (record { buffer = poke t.buffer t.offset x; offset = t.offset + 1 })

append_four :
    (ws bs cs ds : List ℕ) (t : FaultText)
    → append_codes ds (append_codes cs (append_codes bs (append_codes ws t)))
      ≡ append_codes (ws ++ (bs ++ (cs ++ ds))) t
append_four ws bs cs ds t = rw (
  append_codes-append ws (bs ++ (cs ++ ds)) t,
  append_codes-append bs (cs ++ ds) (append_codes ws t),
  append_codes-append cs ds (append_codes bs (append_codes ws t)),
)

length-choice :
    (b : Bool) (s t : String)
    → length (codes s) ≤ 31
    → length (codes t) ≤ 31
    → length (codes (if b then s else t)) ≤ 31
length-choice true s t h k = h
length-choice false s t h k = k

-- `getPageFaultString` lays the four parts, one behind the other, over the start of the buffer and
-- leaves the rest of it as it was.
pub page_fault_string_lem :
    (error_code : ℕ) (buffer : Memory) (a : ℕ)
    → page_fault_string error_code buffer a ≡ overlay (fault_parts error_code) 0 buffer a
unfolding page_fault_string fault_parts
page_fault_string_lem error_code buffer e =
    ap (λ t. t.buffer e)
      (append_four (who error_code) (access error_code) (target error_code) (cause error_code)
        (record { buffer = buffer; offset = 0 }))
    ∙ append_codes-overlay (fault_parts error_code) (record { buffer = buffer; offset = 0 }) e

-- The text fits the 256 bytes of the buffer with room for a terminating zero.
pub length-fault_parts : (error_code : ℕ) → length (fault_parts error_code) < 256
unfolding fault_parts
length-fault_parts error_code = omega (
  arith,
  length-append (who error_code) (access error_code ++ (target error_code ++ cause error_code)),
  length-append (access error_code) (target error_code ++ cause error_code),
  length-append (target error_code) (cause error_code),
  length-choice (bit_and (error_code >>> 2) 1 == 0) "Supervisor Process " "User Process "
      (omega arith) (omega arith),
  length-choice (bit_and (error_code >>> 1) 1 == 0) "read from " "write to " (omega arith)
      (omega arith),
  length-choice (bit_and (error_code >>> 4) 1 == 0) "data " "instruction " (omega arith)
      (omega arith),
  length-choice (bit_and error_code 1 == 0) "non-present page entry" "and caused a protection fault"
      (omega arith) (omega arith),
)
