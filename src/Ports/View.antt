-- ===== src/Ports/View.antt =====
-- A device that is seen through its registers: what writes to its ports make of them.
use oke_os.Prelude.{ℕ, ◌≡◌, ◌∙◌, refl, ap, List, [], ◌∷◌}
use oke_os.Ports.{Bus, Outb, outbs}

module _ {R V : Type 0} (port : R → ℕ) (written : R → ℕ → V → V) where
  -- A write to each register, with what it does to the registers.
  pub record IsDevice {S : Type 0} (bus : Bus S) (view : S → V) : Type 0 where
    pub writes : (r : R) (v : ℕ) (s : S) → view (bus.outb (port r) v s) ≡ written r v (view s)

  abbrev pub ports : List (R × ℕ) → List Outb
  ports [] = []
  ports ((r, v) ∷ ws) = record { port = port r; value = v } ∷ ports ws

  abbrev pub all_written : List (R × ℕ) → V → V
  all_written [] u = u
  all_written ((r, v) ∷ ws) u = all_written ws (written r v u)

  pub view-outbs :
      {S : Type 0} {bus : Bus S} {view : S → V}
      → IsDevice bus view
      → (ws : List (R × ℕ)) (s : S) → view (outbs bus (ports ws) s) ≡ all_written ws (view s)
  unfolding outbs
  view-outbs device [] s = refl
  view-outbs {bus = bus} device ((r, v) ∷ ws) s =
      view-outbs device ws (bus.outb (port r) v s) ∙ ap (all_written ws) (device.writes r v s)
