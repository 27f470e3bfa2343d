-- ===== src/Ahci/Table.antt =====
-- src/ahci.rs: the sector of a command, and the identity of the disk.
use nova_exo.Base.{
  ℕ, ◌+◌, ◌*◌, ◌^◌, ◌≡◌, ◌<◌, refl, arith, true, Option, none, some, ap₂, List, [], ◌∷◌, set, slice,
  get_or, write_at, u8, shr,
}
use nova_exo.Ahci.{
  Disco, read_sector, write_sector, perform, command_list, command_table, read_dma_ext,
  write_dma_ext, le_bytes, from_le,
}

-- The sector that a device reads in a table: the six bytes of LBA48, in the places of the frame.
abbrev pub sector_of : List ℕ → ℕ
sector_of t =
    get_or t 4 0
    + 2 ^ 8 * get_or t 5 0
    + 2 ^ 16 * get_or t 6 0
    + 2 ^ 24 * get_or t 8 0
    + 2 ^ 32 * get_or t 9 0
    + 2 ^ 40 * get_or t 10 0

-- What the command list and the table of a sector's command say: the header of the list has the
-- length of the frame in double words, the write bit, one region of data and the table's address; the
-- frame is one from the host, with a command, its code, LBA addressing and a count of one.
unfoldable pub Sends : ℕ → ℕ → ℕ → ℕ → ℕ → List ℕ × List ℕ → Type 0
Sends code header lba phys ct_phys (l, t) =
    (from_le l 0 4 ≡ header + 2 ^ 16)
    × (from_le l 4 4 ≡ 0)
    × (from_le l 8 8 ≡ ct_phys)
    × (slice 0 4 t ≡ 0x27 ∷ 0x80 ∷ code ∷ 0 ∷ [])
    × (get_or t 7 0 ≡ 0x40)
    × (sector_of t ≡ lba)
    × (slice 11 3 t ≡ 0 ∷ 1 ∷ 0 ∷ [])
    × (from_le t 128 8 ≡ phys)
    × (from_le t 140 4 ≡ 511)

six_bytes :
    (lba : ℕ)
    → lba < 2 ^ 48
    → u8 lba
        + 2 ^ 8 * u8 (shr lba 8)
        + 2 ^ 16 * u8 (shr lba 16)
        + 2 ^ 24 * u8 (shr lba 24)
        + 2 ^ 32 * u8 (shr lba 32)
        + 2 ^ 40 * u8 (shr lba 40)
      ≡ lba
six_bytes lba h = omega arith

read-Sends :
    (lba phys ct_phys : ℕ)
    → lba < 2 ^ 48
    → phys < 2 ^ 64
    → ct_phys < 2 ^ 64
    → Sends 0x25 5 lba phys ct_phys
        (command_list (read_dma_ext lba phys) ct_phys, command_table (read_dma_ext lba phys))
unfolding Sends command_list command_table write_at le_bytes from_le
read-Sends lba phys ct_phys h l m =
    (omega arith, refl, omega arith, refl, refl, six_bytes lba h, refl, omega arith, refl)

write-Sends :
    (lba phys ct_phys : ℕ)
    → lba < 2 ^ 48
    → phys < 2 ^ 64
    → ct_phys < 2 ^ 64
    → Sends 0x35
        (5 + 2 ^ 6)
        lba
        phys
        ct_phys
        (command_list (write_dma_ext lba phys) ct_phys, command_table (write_dma_ext lba phys))
unfolding Sends command_list command_table write_at le_bytes from_le
write-Sends lba phys ct_phys h l m =
    (omega arith, refl, omega arith, refl, refl, six_bytes lba h, refl, omega arith, refl)

-- A write is a read with another code and the write bit.
list_again :
    (lba phys ct_phys : ℕ)
    → command_list (write_dma_ext lba phys) ct_phys
      ≡ set (command_list (read_dma_ext lba phys) ct_phys) 0 69
unfolding command_list write_at le_bytes
list_again lba phys ct_phys = refl

table_again :
    (lba phys : ℕ)
    → command_table (write_dma_ext lba phys) ≡ set (command_table (read_dma_ext lba phys)) 2 0x35
unfolding command_table write_at le_bytes
table_again lba phys = refl

-- What a call leaves in memory: a list and a table that say the command.
unfoldable pub Sent : ℕ → ℕ → ℕ → ℕ → ℕ → Option (List ℕ × List ℕ) → Type 0
Sent code header lba phys ct_phys none = ⊥
Sent code header lba phys ct_phys (some p) = Sends code header lba phys ct_phys p

-- The list and the table of a call with the byte 0 of the list and the byte 2 of the table changed.
unfoldable pub with_bytes : ℕ → ℕ → Option (List ℕ × List ℕ) → Option (List ℕ × List ℕ)
with_bytes a b none = none
with_bytes a b (some (l, t)) = some (set l 0 a, set t 2 b)

-- For a disk that is present and readable, a sector below 2^48 and addresses below 2^64, the list and
-- the table that read_sector leaves hold a frame of five double words with no write bit, one data
-- region, the address of the table, the code 0x25 in a command frame with LBA addressing and a count
-- of one, the sector in its six bytes, and the address and the size of the data; those of
-- write_sector hold the same with the write bit and the code 0x35, and differ in the bytes of these
-- two alone.
pub read_sector-write_sector :
    (d : Disco) (regs reads : ℕ → ℕ) (lba phys ct_phys : ℕ)
    → d.presente ≡ true
    → d.leggibile ≡ true
    → lba < 2 ^ 48
    → phys < 2 ^ 64
    → ct_phys < 2 ^ 64
    → Sent 0x25 5 lba phys ct_phys (read_sector d regs reads lba phys ct_phys).0
      × Sent 0x35 (5 + 2 ^ 6) lba phys ct_phys (write_sector d regs reads lba phys ct_phys).0
      × ((write_sector d regs reads lba phys ct_phys).0
          ≡ with_bytes 69 0x35 (read_sector d regs reads lba phys ct_phys).0)
unfolding read_sector write_sector perform Sent with_bytes
read_sector-write_sector d regs reads lba phys ct_phys p q h k m =
    rw (p, q)
      (
        read-Sends lba phys ct_phys h k m,
        write-Sends lba phys ct_phys h k m,
        ap₂ (λ (l : List ℕ) (t : List ℕ). some (l, t)) (list_again lba phys ct_phys)
            (table_again lba phys),
      )
