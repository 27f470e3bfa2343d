-- ===== src/Ahci.antt =====
-- src/ahci.rs: the SATA disk: the search for its port, its identity and the commands for a sector.
-- What a register answers is an argument; the writes to registers are a list of (offset, value) in
-- their order. Physical addresses are arguments, and the diagnostics are left out.
pub mod Port
pub mod Table
pub mod Wait
use nova_exo.Base.{
  ℕ, zero, suc, ◌+◌, ◌-◌, ◌*◌, ◌/◌, ◌%◌, ◌^◌, Bool, true, false, not, ◌&&◌, ◌||◌, Option, none,
  some, List, [], ◌∷◌, ltb, ◌==◌, if◌then◌else◌, get_or, replicate, write_at, bit, low_bits, shr,
  u8,
}

abbrev pub sig_sata : ℕ
sig_sata = 0x0000_0101

-- The registers of port `i`.
abbrev pub port_base : ℕ → ℕ
port_base i = 0x100 + i * 0x80

abbrev pub p_is : ℕ
p_is = 0x10

abbrev pub p_cmd : ℕ
p_cmd = 0x18

abbrev pub p_tfd : ℕ
p_tfd = 0x20

abbrev pub p_sig : ℕ
p_sig = 0x24

abbrev pub p_ssts : ℕ
p_ssts = 0x28

abbrev pub p_ci : ℕ
p_ci = 0x38

abbrev pub hba_pi : ℕ
hba_pi = 0x0C

-- Is there a disk at port `i`?
abbrev pub has_disk : (ℕ → ℕ) → ℕ → Bool
has_disk regs i =
    bit (regs hba_pi) i
    && low_bits (regs (port_base i + p_ssts)) 4 == 3
    && regs (port_base i + p_sig) == sig_sata

-- The loop over the ports: `k` rounds from `i`.
unfoldable pub trova_from : (ℕ → ℕ) → ℕ → ℕ → Option ℕ
trova_from regs zero i = none
trova_from regs (suc k) i =
    let rest = trova_from regs k (i + 1) in if has_disk regs i then some i else rest

unfoldable pub trova_porta : (ℕ → ℕ) → Option ℕ
unfolding trova_from
trova_porta regs = trova_from regs 32 0

pub record Disco : Type 0 where
  pub presente : Bool
  pub leggibile : Bool
  pub modello : List ℕ
  pub settori : ℕ
  pub porta : ℕ

-- The little-endian bytes of a number, `n` of them.
unfoldable pub le_bytes : ℕ → ℕ → List ℕ
le_bytes zero x = []
le_bytes (suc n) x = x % 256 ∷ le_bytes n (x / 256)

unfoldable pub from_le : List ℕ → ℕ → ℕ → ℕ
from_le buf at zero = 0
from_le buf at (suc n) = get_or buf at 0 + 256 * from_le buf (at + 1) n

-- The model's name: the bytes from 54, each pair exchanged.
unfoldable pub modello_from : List ℕ → ℕ → ℕ → List ℕ
modello_from idb zero i = []
modello_from idb (suc k) i =
    let base = 54 + i / 2 * 2 in
    (if i % 2 == 0 then get_or idb (base + 1) 0 else get_or idb base 0) ∷ modello_from idb k (i + 1)

-- The end of `init`, on the answer to IDENTIFY.
unfoldable pub identified : List ℕ → Disco → Disco
unfolding modello_from from_le
identified idb d =
    let lba = from_le idb 120 4 + 2 ^ 32 * from_le idb 124 4 in
    record d {
      modello = modello_from idb 40 0;
      settori = lba;
      presente = true;
      leggibile = ltb 0 lba;
    }

-- A command: its ATA code, whether it writes, the sector and the address of its data, if any.
pub record Command : Type 0 where
  pub code : ℕ
  pub flags : ℕ
  pub sector : Option (ℕ × ℕ)

abbrev pub read_dma_ext : ℕ → ℕ → Command
read_dma_ext lba out_phys = record {
  code = 0x25;
  flags = 5 + 2 ^ 16;
  sector = some (lba, out_phys);
}

abbrev pub write_dma_ext : ℕ → ℕ → Command
write_dma_ext lba src_phys = record {
  code = 0x35;
  flags = 5 + 2 ^ 6 + 2 ^ 16;
  sector = some (lba, src_phys);
}

abbrev pub flush_cache : Command
flush_cache = record { code = 0xEA; flags = 5; sector = none }

-- The first bytes of the command list, which is otherwise zero.
unfoldable pub command_list : Command → ℕ → List ℕ
unfolding le_bytes
command_list c ct_phys =
    write_at (write_at (write_at (replicate 1024 0) 0 (le_bytes 4 c.flags)) 8 (le_bytes 4 ct_phys))
      12 (le_bytes 4 (ct_phys / 2 ^ 32))

-- The fourteen bytes of the frame for a sector, in the order of the table.
abbrev pub sector_fis : ℕ → ℕ → List ℕ
sector_fis code lba =
    0x27
    ∷ 0x80
    ∷ code
    ∷ 0
    ∷ u8 lba
    ∷ u8 (shr lba 8)
    ∷ u8 (shr lba 16)
    ∷ 0x40
    ∷ u8 (shr lba 24)
    ∷ u8 (shr lba 32)
    ∷ u8 (shr lba 40)
    ∷ 0
    ∷ 1
    ∷ 0
    ∷ []

-- The command table, which is otherwise zero: the frame, and the place and size of the data.
unfoldable pub command_table : Command → List ℕ
unfolding le_bytes
command_table c = elim (c.sector) [
  | none ↦ write_at (replicate 256 0) 0 (0x27 ∷ 0x80 ∷ c.code ∷ 0 ∷ 0 ∷ 0 ∷ 0 ∷ 0x40 ∷ [])
  | some (lba, phys) ↦
      write_at
        (write_at
          (write_at (write_at (replicate 256 0) 0 (sector_fis c.code lba)) 128 (le_bytes 8 phys))
          136 (le_bytes 4 0))
        140 (le_bytes 4 511)
]

-- The wait: `reads i` is what PxIS answers at the i-th read; `k` rounds are left.
unfoldable pub completed : (ℕ → ℕ) → ℕ → ℕ → Bool
completed reads zero i = false
completed reads (suc k) i =
    let rest = completed reads k (i + 1) in
    let is = reads i in if bit is 30 then false else if bit is 0 then true else rest

-- `read_sector`, `write_sector` and `flush_cache_ext`: the writes to registers and the result.
unfoldable pub issue : Disco → (ℕ → ℕ) → (ℕ → ℕ) → ℕ → List (ℕ × ℕ) × Bool
issue d regs reads rounds =
    let pb = port_base d.porta in
    if not d.presente || not d.leggibile
    then ([], false)
    else if not (bit (regs (pb + p_cmd)) 0) || bit (regs (pb + p_tfd)) 7
    then ([], false)
    else ((pb + p_is, 0xFFFF_FFFF) ∷ (pb + p_ci, 1) ∷ [], completed reads rounds 0)

-- The two tables, where the disk is usable and they are written, and what `issue` says.
unfoldable pub perform :
    Command → Disco → (ℕ → ℕ) → (ℕ → ℕ) → ℕ → Option (List ℕ × List ℕ) × (List (ℕ × ℕ) × Bool)
unfolding command_list command_table issue
perform c d regs reads ct_phys = (
  if d.presente && d.leggibile then some (command_list c ct_phys, command_table c) else none,
  issue d regs reads 2000000,
)

unfoldable pub read_sector :
    Disco
    → (ℕ → ℕ)
    → (ℕ → ℕ)
    → (lba out_phys ct_phys : ℕ) → Option (List ℕ × List ℕ) × (List (ℕ × ℕ) × Bool)
unfolding perform
read_sector d regs reads lba out_phys ct_phys =
    perform (read_dma_ext lba out_phys) d regs reads ct_phys

unfoldable pub write_sector :
    Disco
    → (ℕ → ℕ)
    → (ℕ → ℕ)
    → (lba src_phys ct_phys : ℕ) → Option (List ℕ × List ℕ) × (List (ℕ × ℕ) × Bool)
unfolding perform
write_sector d regs reads lba src_phys ct_phys =
    perform (write_dma_ext lba src_phys) d regs reads ct_phys

unfoldable pub flush_cache_ext :
    Disco → (ℕ → ℕ) → (ℕ → ℕ) → (ct_phys : ℕ) → Option (List ℕ × List ℕ) × (List (ℕ × ℕ) × Bool)
unfolding perform
flush_cache_ext d regs reads ct_phys = perform flush_cache d regs reads ct_phys
