-- ===== src/Tests/Devices.antt =====
-- Small machines: a receive ring, a keyboard buffer, a configuration space with three devices.
use nova_exo.Base.{
  ℕ, ◌+◌, ◌*◌, ◌≤◌, ◌<◌, ◌%◌, ◌≡◌, refl, true, false, not, some, List, [], ◌∷◌, ◌++◌, arith, length,
  replicate, take, drop, slice, bit, u32, get_or, ◌==◌, if◌then◌else◌,
}
use nova_exo.Base.Int.{pos}
use nova_exo.Rx.{start}
use nova_exo.Net.Writer.Decimal.{read_from}
use nova_exo.Rtl.{Nic, rx_desc, poll_rx, beacon_frame, counter_digits, exo_mac}
use nova_exo.Rtl.Poll.{poll_rx-armed, poll_rx-counts, given_back}
use nova_exo.Rtl.Beacon.{beacon_frame-counter}
use nova_exo.Pci.{
  find_class_all, find_class, pci_find_device, config_address, pci_config_read, high16, first_of,
  test_ids,
}
use nova_exo.Pci.Flat.{devices, find_class_all-devices}
use nova_exo.Pci.Scan.{matches, head, find_class-head}
use nova_exo.Pci.Bars.{pci_find_device-ids}
use nova_exo.Kbd.{I8042, read_loop}
use nova_exo.Kbd.Buffer.{Buffered, read_loop-first, from_key, first, is_empty}
use nova_exo.Touchpad.{Touchpad, feed_all}
use nova_exo.Touchpad.Moves.{feed_all-Follows, Follows}
use nova_exo.Ps2.{push_bytes}
use nova_exo.Intero.{
  Machine, CpuId, temperatura, vendor_intel, vendor_amd, cpu_family, cpu_model, family_from_eax,
  model_from_eax, tctl_da_raw, temp_pci_nb_f3, zen_temp, f15h_m60_temp, rotta_smn_zen,
  rotta_pci_f3_a4, rotta_smn_f15h_m60,
}
use nova_exo.Intero.Route.{temperatura-msr, temperatura-rotta}

-- The first descriptor came back with a packet of 66 bytes, the second empty; the chip has the rest.
abbrev two_back : Nic
two_back = record {
  present = true;
  mmio = 4096;
  rx_init_ok = true;
  rx_overflows = 0;
  rx_cmd = 0;
  rx_rcr = 0;
  rx_maxsz = 0;
  rx_desc0 = 0;
  tx_ok = 0;
  tx_fail = 0;
  ring = 66 ∷ 0 ∷ replicate 62 0x8000_07FF;
  bufs = replicate 64 (replicate 66 7);
  port = start;
  tx_desc = 0;
  tx_buf = replicate 2048 0;
}

poll_rx-armed_example : bit (get_or (poll_rx (λ a. 0) two_back).0.ring 1 0) 31 ≡ true
poll_rx-armed_example = poll_rx-armed (λ a. 0) two_back refl refl 1 (omega arith)

poll_rx-counts_example :
    u32 ((poll_rx (λ a. 0) two_back).0.port.pkts + (poll_rx (λ a. 0) two_back).0.port.errs)
    ≡ u32 (two_back.port.pkts + two_back.port.errs + given_back two_back.ring 0 rx_desc)
poll_rx-counts_example = poll_rx-counts (λ a. 0) two_back refl refl

two_given_back : given_back two_back.ring 0 rx_desc ≡ 2
unfolding given_back
two_given_back = refl

beacon_frame-counter_example :
    (length (beacon_frame 907) ≡ 60)
    × (take 12 (beacon_frame 907) ≡ replicate 6 0xFF ++ exo_mac)
    × (read_from 0 (slice 23 (length (counter_digits 907)) (beacon_frame 907)) ≡ some 907)
beacon_frame-counter_example = beacon_frame-counter 907 (omega arith)

-- Two audio controllers, 00:01.1 and 01:00.0, and the network card 02:00.0.
abbrev config : ℕ → ℕ
config a =
    if a == 0x80000900
    then 0x12341002
    else if a == 0x80000908
    then 0x04030000
    else if a == 0x80010000
    then 0x02331002
    else if a == 0x80010008
    then 0x04030000
    else if a == 0x80020000
    then 0x813610EC
    else if a == 0x80020008
    then 0x02000000
    else 0xFFFFFFFF

find_class_all-devices_example :
    (find_class_all config 4 3 1 ≡ take 1 (devices config 4 3))
    × (find_class config 4 3 ≡ head (devices config 4 3))
find_class_all-devices_example = find_class_all-devices config 4 3 (omega arith) (omega arith) 1

find_class-head_example : find_class config 2 0 ≡ head (matches config 2 0)
find_class-head_example = find_class-head config 2 0

found_card : pci_find_device config 0x10EC 0x8136 ≡ some (2, 0, 0)
unfolding pci_find_device first_of test_ids pci_config_read config_address
found_card = refl

pci_find_device-ids_example :
    (2 < 5)
    × (0 < 32)
    × (0 < 8)
    × (pci_config_read config 2 0 0 0 % 65536 ≡ 0x10EC)
    × (high16 (pci_config_read config 2 0 0 0) ≡ 0x8136)
pci_find_device-ids_example = pci_find_device-ids config 0x10EC 0x8136 (2, 0, 0) found_card

-- A buffer that is the list of its bytes.
abbrev answer : ℕ → List ℕ → ℕ × List ℕ
answer p [] = (0, [])
answer p (b ∷ bs) = if p == 0x60 then (b, bs) else (1, b ∷ bs)

abbrev queue : I8042
queue = record { S = List ℕ; inb = answer; outb = λ p v s. s }

status_of : (s : List ℕ) → bit (answer 0x64 s).0 0 ≡ not (is_empty s)
status_of [] = refl
status_of (b ∷ bs) = refl

kept : (s : List ℕ) → (answer 0x64 s).1 ≡ s
kept [] = refl
kept (b ∷ bs) = refl

takes :
    (s : List ℕ) (b : ℕ) (bs : List ℕ)
    → s ≡ b ∷ bs
    → ((answer 0x60 s).0 ≡ b) × ((answer 0x60 s).1 ≡ bs)
takes s b bs e = rw e (refl, refl)

abbrev buffered : Buffered queue
buffered = record {
  waiting = λ s. s;
  status_bit = status_of;
  status_keeps = kept;
  data_takes = takes;
}

abbrev keys : List ℕ
keys = 0xFA ∷ 0xE0 ∷ 0x1C ∷ 0x39 ∷ []

read_loop-first_example :
    ((read_loop queue 5 keys).0 ≡ first (from_key keys))
    × ((read_loop queue 5 keys).1 ≡ drop 1 (from_key keys))
read_loop-first_example = read_loop-first queue buffered 5 keys (omega arith)

first_key : first (from_key keys) ≡ some 0x1C
unfolding from_key
first_key = refl

abbrev pad : Touchpad
pad = record {
  ass = record { buf = 0 ∷ 0 ∷ 0 ∷ []; n = 0 };
  ultimo = record { dx = pos 0; dy = pos 0; bottoni = 0; overflow = false };
  mosse = 3;
}

feed_all-Follows_example :
    Follows pad
      (push_bytes pad.ass (8 ∷ 1 ∷ 0 ∷ 9 ∷ 0 ∷ 0 ∷ []))
      (feed_all pad (8 ∷ 1 ∷ 0 ∷ 9 ∷ 0 ∷ 0 ∷ []))
feed_all-Follows_example = feed_all-Follows (8 ∷ 1 ∷ 0 ∷ 9 ∷ 0 ∷ 0 ∷ []) pad (omega arith)

-- An A8-7410: leaf 0 is AuthenticAMD, leaf 1 is family 16h.
abbrev leaf : ℕ → CpuId
leaf n =
    if n == 0
    then record { eax = 13; ebx = 0x6874_7541; ecx = 0x444d_4163; edx = 0x6974_6e65 }
    else record { eax = 0x00730F01; ebx = 0; ecx = 0; edx = 0 }

abbrev lenovo : Machine
lenovo = record { cpuid = leaf; rdmsr = λ a. 0; config = config; smn = λ a. 0 }

no_intel : vendor_intel lenovo ≡ false
unfolding vendor_intel
no_intel = refl

is_amd : vendor_amd lenovo ≡ true
unfolding vendor_amd
is_amd = refl

family_16h : (cpu_family lenovo ≡ 0x16) × (cpu_model lenovo ≡ 0x30)
unfolding cpu_family cpu_model family_from_eax model_from_eax
family_16h = (refl, refl)

temperatura-msr_example :
    temperatura (record lenovo { rdmsr = λ a. a * 65536 + 9 }) ≡ temperatura lenovo
temperatura-msr_example = temperatura-msr lenovo (λ a. a * 65536 + 9) no_intel

temperatura-rotta_example :
    (0x17 ≤ cpu_family lenovo
      → ((temperatura lenovo).rotta ≡ rotta_smn_zen)
        × ((temperatura lenovo).temp ≡ tctl_da_raw (lenovo.smn zen_temp)))
    × (cpu_family lenovo ≡ 0x15
        → 0x60 ≤ cpu_model lenovo % 256
        → cpu_model lenovo % 256 < 0x80
        → ((temperatura lenovo).rotta ≡ rotta_smn_f15h_m60)
          × ((temperatura lenovo).temp ≡ tctl_da_raw (lenovo.smn f15h_m60_temp)))
    × (cpu_family lenovo < 0x17
        → (cpu_family lenovo ≡ 0x15 → cpu_model lenovo % 256 < 0x60)
        → ((temperatura lenovo).rotta ≡ rotta_pci_f3_a4)
          × ((temperatura lenovo).temp ≡ tctl_da_raw (temp_pci_nb_f3 lenovo).0))
temperatura-rotta_example = temperatura-rotta lenovo no_intel is_amd
