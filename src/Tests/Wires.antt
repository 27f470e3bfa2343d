-- ===== src/Tests/Wires.antt =====
-- The serial lines, the network card and the disk at concrete inputs.
use nova_exo.Base.{
  ◌+◌, ◌^◌, ℕ, ◌-◌, ◌<◌, ◌≡◌, ◌↔◌, refl, arith, true, false, List, [], ◌∷◌, ◌++◌, min, ◌==◌,
  if◌then◌else◌, replicate, length-replicate, drop, codes,
}
use nova_exo.Fp.Toy.{naturals}
use nova_exo.Rx.{start}
use nova_exo.Serial.{LineReader, reader_new, push_bytes, consume, line, parse_line}
use nova_exo.Serial.Lines.{Plain, Ready, push_bytes-line, push_bytes_deaf}
use nova_exo.Serial.Fields.{parse_line_lem, four_from, split_commas}
use nova_exo.E1000.{
  E1000, TxDesc, tx_zero, tx_desc_at, tx_frame, setup_tx, reg_tdt, present, tx_ring_size,
}
use nova_exo.E1000.Send.{sent_desc, tx_frame_lem, send_all, send_all_lem}
use nova_exo.Ahci.{Disco, trova_porta, read_sector, write_sector, issue}
use nova_exo.Ahci.Port.{First, trova_porta-First}
use nova_exo.Ahci.Table.{Sent, with_bytes, read_sector-write_sector}
use nova_exo.Ahci.Wait.{Answered, issue_lem}

new-Ready : Ready reader_new
unfolding Ready
new-Ready = (refl, refl, refl)

abbrev word : List ℕ
word = codes "OK"

word-Plain : Plain word
unfolding Plain
word-Plain = (refl, (refl, omega arith))

push_bytes-line_example :
    ((push_bytes (word ++ (10 ∷ word)) reader_new).has_line ≡ true)
    × (line (push_bytes (word ++ (10 ∷ word)) reader_new) ≡ word)
    × Ready (consume (push_bytes (word ++ (10 ∷ word)) reader_new))
push_bytes-line_example =
    push_bytes-line reader_new word 10 word new-Ready word-Plain (omega arith) refl

abbrev long : List ℕ
long = replicate 64 b'a'

long-Plain : Plain long
unfolding Plain
long-Plain = ground arith

push_bytes_deaf_example :
    ((push_bytes (long ++ (10 ∷ word)) reader_new).has_line ≡ false)
    × (line (push_bytes (long ++ (10 ∷ word)) reader_new) ≡ long)
push_bytes_deaf_example = push_bytes_deaf reader_new long (10 ∷ word) new-Ready long-Plain refl

-- Four pieces: a number, one with a sign and a fraction, one with no digits, and one with a rest.
abbrev numbers : LineReader
numbers = push_bytes (codes "1,-2.5,x,40y") reader_new

parse_line_lem_example :
    parse_line naturals numbers
    ≡ four_from naturals (split_commas [] (line numbers)) 0 (0 ∷ 0 ∷ 0 ∷ 0 ∷ [])
parse_line_lem_example = parse_line_lem naturals numbers

-- A card whose descriptors are free.
abbrev free_desc : TxDesc
free_desc = record tx_zero { status = 255 }

abbrev card : E1000
card = record {
  mmio_base = 4096;
  tx_ring = replicate 8 free_desc;
  rx_ring = [];
  rx_pool = [];
  tx_buf = replicate 1514 0;
  tx_next = 0;
  port = start;
}

card_present : present card ≡ true
unfolding present
card_present = refl

tx_frame_lem_example :
    ((tx_frame 64 word card).0.tx_buf ≡ word ++ drop 2 card.tx_buf)
    × (tx_desc_at (tx_frame 64 word card).0 0 ≡ sent_desc 64 card word)
    × ((tx_frame 64 word card).1 ≡ (reg_tdt, 1) ∷ [])
    × ((tx_frame 64 word card).2 ≡ true)
tx_frame_lem_example =
    tx_frame_lem 64 word card 0 card_present (omega arith) (omega arith)
      (length-replicate {A = ℕ} 1514 0) (omega arith)

send_all_lem_example :
    send_all 64 (word ∷ []) (setup_tx 0 card).0
    ≡ replicate (min tx_ring_size 1) true ++ replicate (1 - tx_ring_size) false
send_all_lem_example = send_all_lem 0 64 (word ∷ []) card card_present refl refl

-- The registers of a machine with a disk at port 1.
abbrev disk_at_1 : ℕ → ℕ
disk_at_1 off =
    if off == 0x0C
    then 2
    else if off == 0x1A8
    then 0x113
    else if off == 0x1A4
    then 0x101
    else if off == 0x198
    then 1
    else 0

trova_porta-First_example : First disk_at_1 (trova_porta disk_at_1)
trova_porta-First_example = trova_porta-First disk_at_1

abbrev disk : Disco
disk = record { presente = true; leggibile = true; modello = []; settori = 100; porta = 1 }

read_sector-write_sector_example :
    Sent 0x25 5 1234567 4096 8192 (read_sector disk disk_at_1 disk_at_1 1234567 4096 8192).0
    × Sent 0x35
        (5 + 2 ^ 6)
        1234567
        4096
        8192
        (write_sector disk disk_at_1 disk_at_1 1234567 4096 8192).0
    × ((write_sector disk disk_at_1 disk_at_1 1234567 4096 8192).0
        ≡ with_bytes 69 0x35 (read_sector disk disk_at_1 disk_at_1 1234567 4096 8192).0)
read_sector-write_sector_example =
    read_sector-write_sector disk disk_at_1 disk_at_1 1234567 4096 8192 refl refl (omega arith)
      (omega arith) (omega arith)

abbrev done_at_once : ℕ → ℕ
done_at_once i = 1

issue_lem_example :
    ((issue disk disk_at_1 done_at_once 5).0 ≡ (0x190, 0xFFFF_FFFF) ∷ (0x1B8, 1) ∷ [])
    × (((issue disk disk_at_1 done_at_once 5).1 ≡ true)
        ↔ ((j : ℕ) × (j < 5) × Answered done_at_once 0 j))
issue_lem_example = issue_lem disk disk_at_1 done_at_once 5 refl
