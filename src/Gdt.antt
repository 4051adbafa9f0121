-- ===== src/Gdt.antt =====
-- kernel/gdt/gdt.cpp and gdt.h: the descriptor of the task state segment, and the table of
-- segments. Loading the table and the task register is left out.
pub mod Tss
use oke_os.Prelude.{ℕ, ◌+◌, ◌-◌, ◌*◌, ◌/◌, ◌%◌, ◌^◌, bit_and, u8, u16, u32, ◌<<<◌, ◌>>>◌}

-- The last field of the descriptor is reserved and 0.
pub record TssDescriptor : Type 0 where
  pub limit_low : ℕ
  pub base_low : ℕ
  pub base_mid : ℕ
  pub type : ℕ
  pub zero_bit : ℕ
  pub dpl : ℕ
  pub p : ℕ
  pub limit_high : ℕ
  pub avl : ℕ
  pub l : ℕ
  pub db : ℕ
  pub g : ℕ
  pub base_high : ℕ
  pub base_upper : ℕ
  pub reserved : ℕ

unfoldable pub tss_entry : ℕ → ℕ → TssDescriptor
tss_entry base limit = record {
  limit_low = u16 (bit_and limit 0xffff);
  base_low = u16 (bit_and base 0xffff);
  base_mid = u8 (bit_and (base >>> 16) 0xff);
  type = 0x9;
  zero_bit = 0;
  dpl = 0;
  p = 1;
  limit_high = u8 (bit_and (limit >>> 16) 0x0f);
  avl = 0;
  l = 0;
  db = 0;
  g = 1;
  base_high = u8 (bit_and (base >>> 24) 0xff);
  base_upper = u32 (bit_and (base >>> 32) 0xffffffff);
  reserved = 0;
}

pub record GdtEntry : Type 0 where
  pub limit0 : ℕ
  pub base0 : ℕ
  pub base1 : ℕ
  pub access_byte : ℕ
  pub limit1_flags : ℕ
  pub base2 : ℕ

-- `*(struct GDTEntry*)&tssDesc`: the first eight bytes of the descriptor, where the bit fields
-- share a byte, from the low end.
unfoldable pub first_half : TssDescriptor → GdtEntry
first_half d = record {
  limit0 = d.limit_low;
  base0 = d.base_low;
  base1 = d.base_mid;
  access_byte = d.type + (d.zero_bit <<< 4) + (d.dpl <<< 5) + (d.p <<< 7);
  limit1_flags = d.limit_high + (d.avl <<< 4) + (d.l <<< 5) + (d.db <<< 6) + (d.g <<< 7);
  base2 = d.base_high;
}

pub record Gdt : Type 0 where
  pub null : GdtEntry
  pub kernel_code : GdtEntry
  pub kernel_data : GdtEntry
  pub user_null : GdtEntry
  pub user_code : GdtEntry
  pub user_data : GdtEntry
  pub tss : GdtEntry

abbrev pub entry : ℕ → ℕ → GdtEntry
entry access flags = record {
  limit0 = 0;
  base0 = 0;
  base1 = 0;
  access_byte = access;
  limit1_flags = flags;
  base2 = 0;
}

abbrev pub default_gdt : Gdt
default_gdt = record {
  null = entry 0x00 0x00;
  kernel_code = entry 0x9a 0xa0;
  kernel_data = entry 0x92 0xa0;
  user_null = entry 0x00 0x00;
  user_code = entry 0x9a 0xa0;
  user_data = entry 0x92 0xa0;
  tss = entry 0x00 0x00;
}

pub record GdtDescriptor : Type 0 where
  pub size : ℕ
  pub offset : ℕ

-- `tss_address` and `gdt_address` are the addresses of the two objects; a `TSSEntry` has 104 bytes,
-- a `GDT` has seven entries of eight.
unfoldable pub gdt_init : ℕ → ℕ → Gdt → Gdt × GdtDescriptor
unfolding tss_entry first_half
gdt_init tss_address gdt_address gdt = (
  record gdt { tss = first_half (tss_entry tss_address 104) },
  record { size = 7 * 8 - 1; offset = gdt_address },
)
