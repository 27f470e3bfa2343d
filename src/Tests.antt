-- ===== src/Tests.antt =====
-- Tests of the definitions on concrete inputs, and the theorems applied at such inputs.
mod Ps2
mod Sensi
mod Net
mod Rx
mod Brain
mod Senses
mod Wires
mod Devices
mod Body
mod Files
