-- ===== src/Ports/Chips.antt =====
-- `disablePIC` on two controllers that keep to the sequence of the 8259.
use oke_os.Prelude.{ℕ, ◌*◌, ◌/◌, ◌%◌, ◌≡◌, ◌&&◌, List, [], ◌∷◌, ◌==◌, if◌then◌else◌}
use oke_os.Ports.{Bus}
use oke_os.Ports.View.{IsDevice, view-outbs}
use oke_os.Ports.Pic.{
  command_master, data_master, command_slave, data_slave, initialization, disable_pic,
}

-- What the next byte to the data port of a controller is taken for.
pub data Expects : Type 0 where
  the_mask the_base the_cascade the_mode : Expects

-- A controller: the first vector of its interrupts, its wiring, its mode and the lines masked.
pub record Chip : Type 0 where
  pub expects : Expects
  pub base : ℕ
  pub cascade : ℕ
  pub mode : ℕ
  pub mask : ℕ

-- A byte to the command port: bit 4 begins the initialization, with every line let through, and
-- bit 0 announces a byte for the mode; other commands leave the registers.
abbrev pub commanded : ℕ → Chip → Chip
commanded v c =
    if v / 16 % 2 == 1 && v % 2 == 1 then record c { expects = the_base; mask = 0 } else c

-- A byte to the data port.
abbrev pub given : ℕ → Chip → Chip
given v c = elim c.expects [
  | the_mask ↦ record c { mask = v }
  | the_base ↦ record c { expects = the_cascade; base = v / 8 * 8 }
  | the_cascade ↦ record c { expects = the_mode; cascade = v }
  | the_mode ↦ record c { expects = the_mask; mode = v }
]

-- The ports of the two controllers.
pub data Target : Type 0 where
  master_command master_data slave_command slave_data : Target

abbrev pub port_of : Target → ℕ
port_of master_command = command_master
port_of master_data = data_master
port_of slave_command = command_slave
port_of slave_data = data_slave

-- A write reaches one of the two controllers, and leaves the other.
abbrev pub reached : Target → ℕ → Chip × Chip → Chip × Chip
reached master_command v (master, slave) = (commanded v master, slave)
reached master_data v (master, slave) = (given v master, slave)
reached slave_command v (master, slave) = (master, commanded v slave)
reached slave_data v (master, slave) = (master, given v slave)

-- The writes of `disablePIC` by the ports that they go to.
abbrev steps : List (Target × ℕ)
steps =
    (master_command, 0x11)
    ∷ (slave_command, 0x11)
    ∷ (master_data, 0x20)
    ∷ (slave_data, 0x28)
    ∷ (master_data, 0x04)
    ∷ (slave_data, 0x02)
    ∷ (master_data, 0x01)
    ∷ (slave_data, 0x01)
    ∷ (master_data, 0xFF)
    ∷ (slave_data, 0xFF)
    ∷ []

-- Initialized, with every line masked.
abbrev pub masked : ℕ → ℕ → Chip
masked base cascade = record {
  expects = the_mask;
  base = base;
  cascade = cascade;
  mode = 0x01;
  mask = 0xFF;
}

-- Whatever the two controllers were at, `disablePIC` leaves them initialized in the mode of the 8086
-- with the vectors from 0x20 and from 0x28 on, the second one behind line 2 of the first, and with
-- every line masked.
pub disable_pic-masked :
    {S : Type 0} {bus : Bus S} {view : S → Chip × Chip}
    → IsDevice port_of reached bus view
    → (s : S) → view (disable_pic bus s) ≡ (masked 0x20 0x04, masked 0x28 0x02)
unfolding disable_pic initialization
disable_pic-masked pair s = view-outbs port_of reached pair steps s
