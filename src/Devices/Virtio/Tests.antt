-- ===== src/Devices/Virtio/Tests.antt =====
-- The theorems on the block device at a device that a driver has set up.
use rv32_emulator.Common.{◌+◌, ◌*◌, ◌%◌, ◌<◌, ◌≤◌, ◌≡◌, refl, arith, add32, ◌≢◌, true, false, some}
use rv32_emulator.Devices.{done}
use rv32_emulator.Devices.Virtio.{
  Virtio, VirtqueueAddr, word, new, no_notification, is_interrupting, queue_addr, virtio_base,
  reset, init_virtqueue,
}
use rv32_emulator.Devices.Virtio.Access.{
  notifier, register_at, write_register, merge, write_status, read, write,
}
use rv32_emulator.Devices.Virtio.Queue.{write-virtqueue, queue_addr_lem}
use rv32_emulator.Devices.Virtio.Notify.{no_write, one_more, notified}
use rv32_emulator.Devices.Virtio.Bytes.{ack-stores}

-- Eight descriptors on the page 0x80010.
abbrev ready : Virtio
unfolding new
ready = record new { guest_page_size = 0x1000; queue_num = 8; queue_pfn = 0x80010; status = 3 }

-- DRIVER_OK is written, and the virtqueue is still not set up.
abbrev driver_ok : Virtio
driver_ok = record ready { status = 7 }

driver_ok_run : write word 0x70 7 ready ≡ done driver_ok
unfolding write add32 register_at write_register merge write_status reset init_virtqueue queue_addr
driver_ok_run = refl

write-virtqueue_example : driver_ok.virtqueue ≡ ready.virtqueue
write-virtqueue_example = write-virtqueue word 0x70 7 ready driver_ok_run

queue_addr_lem_example :
    (q : VirtqueueAddr) × (queue_addr ready ≡ done q)
    × (q.desc_addr ≡ 0x80010 * 0x1000)
    × (q.avail_addr ≡ q.desc_addr + 16 * 8)
    × (q.avail_addr + (6 + 2 * 8) < q.used_addr)
    × (q.used_addr ≤ q.avail_addr + (6 + 2 * 8) + 0x1000)
    × (q.used_addr % 0x1000 ≡ 0)
unfolding ready
queue_addr_lem_example = queue_addr_lem ready (omega arith) (omega arith)

abbrev noticed : Virtio
noticed = record ready { queue_notify = 0 }

abbrev renamed : Virtio
renamed = record noticed { queue_pfn = 0x80020 }

renamed_run : write word 0x40 0x80020 noticed ≡ done renamed
unfolding write add32 register_at write_register merge
renamed_run = refl

page-apart : register_at (add32 0x40 virtio_base) ≢ some notifier
unfolding register_at add32
page-apart e = ground (arith, e)

notified_example :
    (write word 0x50 0 ready ≡ done noticed)
    × (is_interrupting renamed ≡ (true, record renamed { queue_notify = no_notification }))
    × (is_interrupting (record renamed { queue_notify = no_notification })
        ≡ (false, record renamed { queue_notify = no_notification }))
notified_example =
    notified 0 ready renamed (record renamed { queue_notify = no_notification }) (omega arith)
      (one_more word 0x40 0x80020 no_write page-apart renamed_run) no_write

ack-stores_example :
    (v' : Virtio) × (write word 0x64 1 ready ≡ done v')
    × (v'.interrupt_status ≡ 1)
    × (read word 0x60 v' ≡ done 1)
ack-stores_example = ack-stores 1 ready
