-- ===== src/Devices/Virtio/Decode.antt =====
-- The registers of the block device by their addresses.
use rv32_emulator.Common.{ℕ, ◌+◌, ◌≤◌, ◌≡◌, arith, some}
use rv32_emulator.Devices.Virtio.{}
use rv32_emulator.Devices.Virtio.Access.{
  Register, magic, version, device_id, vendor_id, host_features, host_features_sel, guest_features,
  guest_features_sel, page_size, queue_sel, queue_num_max, queue_length, queue_alignment,
  queue_page, notifier, interrupts, interrupt_ack, device_status, configuration, first, last,
  register_at,
}

-- The register at an address, for every address of it.
pub register_at-first :
    (r : Register) (i : ℕ) → first r + i ≤ last r → register_at (first r + i) ≡ some r
unfolding register_at
register_at-first magic i h = ground arith
register_at-first version i h = ground arith
register_at-first device_id i h = ground arith
register_at-first vendor_id i h = ground arith
register_at-first host_features i h = ground arith
register_at-first host_features_sel i h = ground arith
register_at-first guest_features i h = ground arith
register_at-first guest_features_sel i h = ground arith
register_at-first page_size i h = ground arith
register_at-first queue_sel i h = ground arith
register_at-first queue_num_max i h = ground arith
register_at-first queue_length i h = ground arith
register_at-first queue_alignment i h = ground arith
register_at-first queue_page i h = ground arith
register_at-first notifier i h = ground arith
register_at-first interrupts i h = ground arith
register_at-first interrupt_ack i h = ground arith
register_at-first device_status i h = ground arith
register_at-first configuration i h = ground arith
