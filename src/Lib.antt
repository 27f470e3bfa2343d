-- ===== src/Lib.antt =====
-- Nova Exo is an exokernel in Rust that hosts a small "body": senses, reflexes, homeostasis, a
-- growing pool of neurons, a brain with an executive, and drivers that carry its state out and signals
-- in. This library models the parts of src/ that decide something, over a parameter for f32
-- arithmetic, and what they promise each other.
--
-- Parts and files (Rust file, then module):
--   src/net.rs         Net: Net.Arp answers ARP; Net.Writer writes bytes, decimals and strings into a
--                      bounded buffer; Net.Payload is build_payload; Net.Frame is build_state_frame,
--                      with Net.Checksum for the IPv4 header.
--   src/rx.rs          Rx: the port that every driver feeds and the main loop takes from (`take` is
--                      take_packet). It uses Net.Arp for the address of who asks.
--   src/rtl.rs         Rtl: rings, poll_rx (which feeds Rx), tx_frame, tx_beacon, rx_init, tx_init and
--                      the PHY.
--   src/e1000.rs       E1000: rings, poll_rx (which feeds Rx too) and tx_frame.
--   src/ahci.rs        Ahci: the disk's port, its identity and the commands for a sector.
--   src/serial.rs      Serial: the reader of lines (`push` is push_byte); Serial.Number is the number of
--                      a text, Serial.Fields the four of a line.
--   src/inference.rs   Inference: the contract of a brain (`InferenceEngine`), the stub and AnyBrain.
--   src/nucleo.rs      Nucleo: the file of the weights; Nucleo.Brain is NucleoBrain, over an interface
--                      for the numerical kernels; Nucleo.Adattatori cuts the buffer of the adapters.
--   src/cfc.rs         Cfc: senses and tick marks; Cfc.Esperienze, Cfc.Pattern are the memories.
--   src/interpreter.rs Interpreter: the four values and the concept, which the executive reads.
--   src/executive.rs   Executive: the desire of a step and the preference learned from outcomes.
--   src/predictor.rs   Predictor: the prediction, its errors, the trend and the anomaly.
--   src/sensi.rs       Sensi: the register of channels and `ordine`, its order of service.
--   src/ps2.rs         Ps2: `destinazione`, `decodifica`, and the assembler (`Assemblatore::byte` is
--                      push_byte).
--   src/touchpad.rs    Touchpad: `feed`, on top of Ps2, and Touchpad.Init on the 8042 of Kbd.
--   src/kbd.rs         Kbd: reading behind the 8042 controller (`read` is read_loop), scancodes.
--   src/pci.rs         Pci: addresses, scans and BARs.
--   src/gguf.rs        Gguf: cursor, values, tables and summary.
--   src/alloc.rs       Alloc: the bump allocator.
--   src/hexutil.rs     Hexutil: hexadecimal arguments, read and written.
--   src/hda_path.rs    HdaPath: the choice of controller, router and pin.
--   src/intero.rs      Intero: temperatures, and which register is read for them. It uses Pci.
--   src/neurogenesis.rs, src/omeostasi.rs, src/riflesso.rs, src/pain.rs
--                      Neurogenesis, Omeostasi, Riflesso, Pain: the organs of those names.
-- Base holds what all share: Boolean tests, lists and byte arrays over native numbers, words, text.
-- Fp is the parameter for f32, Ring a buffer written in turn, Best the first of the best values.
-- Tests runs the definitions on concrete inputs and applies the theorems to them.
--
-- Conventions. A function of the model has the name of the function or method it models; a loop is a
-- function of its own, on the number of rounds left and the index. A `&mut self` or a static variable
-- is a record that goes in and comes out. A byte is a number below 256; u8 to u64 wrap by `%` where
-- the release build wraps. A read out of an array gives the default, and a write there changes
-- nothing, where the code would panic; the invariants say where this cannot happen.
--
-- Bounds. `read_loop` and `skip_value` take fuel: more rounds than bytes wait are enough for the
-- first, more than the bytes left for the second, since each nested array takes twelve bytes. The
-- decimal writers have the 12 and 20 digits of the code. The wait of an AHCI command has 2000000 reads,
-- and its theorem holds for any number of them. All other loops have the bounds of the code.
--
-- Parameters: f32 operations (records Fp, Float, Energies, Readings, Weights), the cast of four bytes
-- to an f32, sqrtf, the kernels of a layer (Kernels), the mutation of weights, `core::str::from_utf8`, the answers of ports, of the PCI configuration space, of CPUID, MSR and SMN,
-- and of the chip's registers; the address of the allocator's region, which the kernel links above
-- 0xffffffff80000000. A ring of DMA descriptors is read as it stands at the poll: the card writes
-- nothing to it meanwhile.
--
-- Not modelled: src/main.rs, src/gui.rs, src/hda.rs, interrupts and paging (port and memory I/O,
-- drawing, assembly); src/tensor.rs, src/attention.rs, src/dsp.rs, src/math.rs (arithmetic on f32);
-- the learning rule of src/plasticita.rs and the equations of the cells in src/cfc.rs (the same);
-- src/acpi.rs (reads of physical memory); the start of the card in src/rtl.rs, of the controller in
-- src/ahci.rs and of the link in src/e1000.rs (register I/O); bench/, tools/ and the documents.
pub mod Base
pub mod Net
pub mod Rx
pub mod Rtl
pub mod Sensi
pub mod Ps2
pub mod Touchpad
pub mod Kbd
pub mod Pci
pub mod Gguf
pub mod Alloc
pub mod Hexutil
pub mod HdaPath
pub mod Intero
pub mod Neurogenesis
pub mod Omeostasi
pub mod Riflesso
pub mod Pain
pub mod Fp
pub mod Ring
pub mod Best
pub mod Inference
pub mod Nucleo
pub mod Cfc
pub mod Executive
pub mod Interpreter
pub mod Predictor
pub mod Serial
pub mod E1000
pub mod Ahci
pub mod Tests
