-- ===== src/Ports/Pic.antt =====
-- kernel/idt/pic.cpp and pic.h: the two interrupt controllers are programmed and masked.
use oke_os.Prelude.{ℕ, List, [], ◌∷◌}
use oke_os.Ports.{Bus, Outb, outbs}

-- `PIC_COMMAND_MASTER`, `PIC_DATA_MASTER`, `PIC_COMMAND_SLAVE` and `PIC_DATA_SLAVE`
abbrev pub command_master : ℕ
command_master = 0x20

abbrev pub data_master : ℕ
data_master = 0x21

abbrev pub command_slave : ℕ
command_slave = 0xA0

abbrev pub data_slave : ℕ
data_slave = 0xA1

unfoldable pub initialization : List Outb
initialization =
    record { port = command_master; value = 0x11 }
    ∷ record { port = command_slave; value = 0x11 }
    ∷ record { port = data_master; value = 0x20 }
    ∷ record { port = data_slave; value = 0x28 }
    ∷ record { port = data_master; value = 0x04 }
    ∷ record { port = data_slave; value = 0x02 }
    ∷ record { port = data_master; value = 0x01 }
    ∷ record { port = data_slave; value = 0x01 }
    ∷ record { port = data_master; value = 0xFF }
    ∷ record { port = data_slave; value = 0xFF }
    ∷ []

unfoldable pub disable_pic : {S : Type 0} → Bus S → S → S
unfolding outbs initialization
disable_pic bus s = outbs bus initialization s
