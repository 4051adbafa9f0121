-- ===== src/Ports.antt =====
-- kernel/lib/io.cpp: the port instructions. What answers them is hardware, so `outb`, `inb` and
-- `inw` are a parameter of the drivers, over any state `S` of the machine's devices.
pub mod View
pub mod Serial
pub mod Uart
pub mod Line
pub mod Pic
pub mod Chips
use oke_os.Prelude.{ℕ, List, [], ◌∷◌}

pub record Bus (S : Type 0) : Type 0 where
  pub outb : ℕ → ℕ → S → S
  pub inb : ℕ → S → ℕ × S
  pub inw : ℕ → S → ℕ × S

-- A write of a byte to a port.
pub record Outb : Type 0 where
  pub port : ℕ
  pub value : ℕ

-- The writes in order.
unfoldable pub outbs : {S : Type 0} → Bus S → List Outb → S → S
outbs bus [] s = s
outbs bus (w ∷ ws) s = outbs bus ws (bus.outb w.port w.value s)
