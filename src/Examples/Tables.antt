-- ===== src/Examples/Tables.antt =====
-- Concrete runs for kernel/lib/string.cpp, kernel/gdt/gdt.cpp and kernel/acpi/acpi.cpp.
use oke_os.Prelude.{ℕ, ◌+◌, ◌%◌, ◌^◌, ◌≡◌, ◌==◌, ltb, if◌then◌else◌, arith, [], true}
use oke_os.MemLib.{Memory}
use oke_os.Paging.{Machine}
use oke_os.Gdt.{default_gdt, gdt_init, tss_entry}
use oke_os.Gdt.Tss.{base_of, entry_base, entry_limit, gdt_init_lem}
use oke_os.Ports.{Bus}

abbrev bytes : Memory
bytes = λ a. if ltb a 4 then 65 + a else if a == 4 then 40 else 0

gdt_init_lem_example :
    let e = (gdt_init 0xffffffff80123456 0x5000 default_gdt).0.tss in
    (base_of (tss_entry 0xffffffff80123456 104) ≡ 0xffffffff80123456)
    × (entry_base e ≡ 0xffffffff80123456 % 2 ^ 32)
    × (entry_limit e ≡ 104)
    × (e.access_byte ≡ 0x89)
gdt_init_lem_example = gdt_init_lem 0xffffffff80123456 0x5000 default_gdt (omega arith)

abbrev machine : Machine
machine = record {
  allocator = record {
    free_memory = 32768;
    used_memory = 0;
    bitmap_idx = 0;
    end_of_memory = 32768;
    bitmap = record { size = 1; buffer = λ i. 0 };
    memmap = [];
    oom_panics = true;
  };
  tables = λ t i. 0;
}

-- Devices that keep the last byte that was written.
abbrev bus : Bus ℕ
bus = record { outb = λ p v s. v; inb = λ p s. (s, s); inw = λ p s. (s, s) }
