-- ===== src/Rtl/Phy.antt =====
-- src/rtl.rs: the wake of the PHY and the start of the transmitter. A write of the PHY waits for the
-- chip and goes on also where it does not answer, so that the wait leaves nothing.
use nova_exo.Base.{
  ℕ, ◌+◌, ◌*◌, ◌/◌, ◌%◌, ◌^◌, Bool, true, List, [], ◌∷◌, ◌++◌, bit, ◌-◌, if◌then◌else◌,
}
use nova_exo.Rtl.{Nic, phy_read, set_bit}

abbrev pub phyar : ℕ
phyar = 0x60

abbrev pub phy_bmcr : ℕ
phy_bmcr = 0

abbrev pub phy_anar : ℕ
phy_anar = 4

unfoldable pub phy_write : ℕ → ℕ → List (ℕ × ℕ)
phy_write reg val = (phyar, 2 ^ 31 + reg * 65536 + val) ∷ []

-- `x & !(1 << k)`
abbrev pub clear_bit : ℕ → ℕ → ℕ
clear_bit k x = if bit x k then x - 2 ^ k else x

-- `reads1` and `reads2` are what PHYAR answers in the two reads of the control register.
unfoldable pub phy_wake : (ℕ → ℕ) → (ℕ → ℕ) → List (ℕ × ℕ)
unfolding phy_write
phy_wake reads1 reads2 =
    let (ask1, bmcr) = phy_read reads1 phy_bmcr in
    let (ask2, bmcr2) = phy_read reads2 phy_bmcr in
    ask1
    ++ (phy_write phy_bmcr (set_bit 12 (clear_bit 11 bmcr))
        ++ (phy_write phy_anar 0x01E1
            ++ (ask2 ++ phy_write phy_bmcr (set_bit 12 (set_bit 9 bmcr2)))))

-- The first word of the descriptor and the writes; the answer is always true.
unfoldable pub tx_init : (ℕ → ℕ) → ℕ → Nic → Nic × List (ℕ × ℕ) × Bool
tx_init regs ring_phys s = (
  record s { tx_desc = 0 },
  (0x50, 0xC0)
      ∷ (0x40, 0x0300_0700)
      ∷ (0x20, ring_phys % 2 ^ 32)
      ∷ (0x24, ring_phys / 2 ^ 32 % 2 ^ 32)
      ∷ (0x37, set_bit 2 (regs 0x37))
      ∷ (0x50, 0x00)
      ∷ [],
  true,
)
