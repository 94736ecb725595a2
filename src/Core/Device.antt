-- ===== src/Core/Device.antt =====
-- core/cx5_protocol.cpp: `inspect`, which tells a device from its registers. A 32-bit register is a
-- number below 2 ^ 32, UINT32_MAX is 2 ^ 32 - 1, and `x >> k` is `x / 2 ^ k`.
use mcdma.Prelude.{
  ℕ, ◌+◌, ◌-◌, ◌*◌, ◌/◌, ◌%◌, ◌^◌, ◌≤◌, ◌<◌, ◌≡◌, arith, Bool, true, false, not, ◌&&◌, ◌||◌, ltb,
  leb, ◌==◌, ◌!=◌, if◌then◌else◌,
}
use mcdma.Core.Command.{
  Error, ok, removed, wrong_device, initializing, command_revision, queue_geometry, command_bytes,
}
pub mod Bounds

-- `Registers`; `initializing` is `not_ready` here.
pub record Registers : Type 0 where
  pub identity : ℕ
  pub revision : ℕ
  pub firmware : ℕ
  pub interface_version : ℕ
  pub geometry : ℕ
  pub not_ready : ℕ

-- `Device`
pub record Device : Type 0 where
  pub major : ℕ
  pub minor : ℕ
  pub patch : ℕ
  pub revision : ℕ
  pub pci_revision : ℕ
  pub log_slots : ℕ
  pub log_stride : ℕ

abbrev pub u32_max : ℕ
u32_max = 2 ^ 32 - 1

abbrev pub pci_identity : ℕ
pci_identity = 0x101915b3

abbrev pub pci_identity_non_ex : ℕ
pci_identity_non_ex = 0x101715b3

abbrev pub no_device : Device
no_device = record {
  major = 0;
  minor = 0;
  patch = 0;
  revision = 0;
  pci_revision = 0;
  log_slots = 0;
  log_stride = 0;
}

-- `inspect`
unfoldable pub inspect : Registers → Error × Device
inspect r =
    let slots = r.geometry / 2 ^ 4 % 16 in
    let stride = r.geometry % 16 in
    if r.identity == u32_max
      || r.firmware == u32_max
      || r.interface_version == u32_max
      || r.geometry == u32_max
      || r.not_ready == u32_max
    then (removed, no_device)
    else if r.identity != pci_identity && r.identity != pci_identity_non_ex
    then (wrong_device, no_device)
    else if r.not_ready / 2 ^ 31 % 2 != 0
    then (initializing, no_device)
    else if r.interface_version / 2 ^ 16 != 5
    then (command_revision, no_device)
    else if ltb 5 slots || ltb stride 6 || ltb 12 stride || ltb 12 (slots + stride)
    then (queue_geometry, no_device)
    else (
      ok,
      record {
        major = r.firmware % 2 ^ 16;
        minor = r.firmware / 2 ^ 16 % 2 ^ 16;
        patch = r.interface_version % 2 ^ 16;
        revision = r.interface_version / 2 ^ 16 % 2 ^ 16;
        pci_revision = r.revision % 2 ^ 8;
        log_slots = slots;
        log_stride = stride;
      },
    )
