-- ===== src/Ata/Lost.antt =====
-- Requests of ata_generic.c that are never served.
use tempos.Base.{
  ℕ, zero, suc, ◌≡◌, refl, ◌≢◌, some, Option, List, [], ◌==◌, ==_self, ltb, if◌then◌else◌, update,
  Res, ok, fault, out_of_fuel, Returns, Returns-then, Bool-cases, inl, inr, ==_of_ne, ◌*◌,
}
use tempos.LinkedList.{Ptr, null}
use tempos.LinkedList.Cells.{load-null}
use tempos.Partitions.{Partition}
use tempos.Ata.Ports.{
  Input, Action, address_writes, start_transfer, set_device, read_target, read_hd_sector, minus_one,
}
use tempos.Ata.{
  Ata, enqueue, read_queue, read_async_ata_sector, wait_block, wait_result, read_sync_ata_sector,
  ata_handler, buff_st_busy,
}

wait_block-endless :
    (k event : ℕ) (sleep : ℕ → Ata → Res (Ata × List Action)) (buf : Ptr) (s : Ata)
    → s.status buf ≡ buff_st_busy
    → ((t : Ata)
        → t.status buf ≡ buff_st_busy
        → Returns (λ (t', sent). t'.status buf ≡ buff_st_busy) (sleep event t))
    → wait_block k sleep event buf s ≡ out_of_fuel
unfolding wait_block
wait_block-endless zero event sleep buf s busy stays = refl
wait_block-endless (suc k) event sleep buf s busy stays = rw busy (
    Returns-then _ (stays s busy)
      λ (t, sent) b. rw (wait_block-endless k event sleep buf t b stays) refl)

read_async-null :
    (k : ℕ) (input : Input) (fresh : Ptr) (major device dev : ℕ) (buf : Ptr) (s : Ata)
    → read_queue major device ≡ some dev
    → read_async_ata_sector k input fresh null major device buf s
      ≡ ok (minus_one, record s { status = update s.status buf buff_st_busy }, [])
unfolding read_async_ata_sector enqueue
read_async-null k input fresh major device dev buf s target =
    rw (target, read_async_ata_sector) refl

-- When kmalloc has no memory for a request, a read leaves its buffer marked as busy: the synchronous read does not
-- end, however long it waits, as long as nobody else changes the mark of the buffer while it sleeps.
pub read_sync-endless :
    (k : ℕ) (sleep : ℕ → Ata → Res (Ata × List Action)) (input : Input) (fresh : Ptr)
    (major device dev : ℕ) (buf : Ptr) (s : Ata)
    → read_queue major device ≡ some dev
    → ((event : ℕ) (t : Ata)
        → t.status buf ≡ buff_st_busy
        → Returns (λ (t', sent). t'.status buf ≡ buff_st_busy) (sleep event t))
    → read_sync_ata_sector k sleep input fresh null major device buf s ≡ out_of_fuel
unfolding read_sync_ata_sector wait_result
read_sync-endless k sleep input fresh major device dev buf s target stays =
    let s1 : Ata = record s { status = update s.status buf buff_st_busy } in
    let event : ℕ = if major == 3 then 14 else 15 in
    rw (read_async-null k input fresh major device dev buf s target)
      (rw (wait_block-endless k event sleep buf s1 (rw (==_self buf) refl) (stays event)) refl)

-- A read on the secondary bus chooses no drive: the writes of the address and of the command are all that is sent.
pub read_hd_sector-no_drive :
    (input : Input) (ptable : ℕ → Option (List Partition)) (device addr : ℕ)
    → read_hd_sector input ptable 2 device addr ≡ ok (0, address_writes input 1 addr 0x24)
unfolding read_hd_sector read_target start_transfer set_device
read_hd_sector-no_drive input ptable device addr = elim (Bool-cases (ltb device 64)) [
  | inl low ↦ rw low refl
  | inr high ↦ rw high refl
]

-- An interrupt of a bus whose first queue is empty, such as one for a request of the second drive, makes the handler read through NULL.
pub ata_handler-fault :
    (k : ℕ) (input : Input) (bus major event : ℕ) (s : Ata)
    → s.discard_irq bus ≢ 1
    → s.blk_queue (2 * bus) ≡ null
    → ata_handler k input bus major event s ≡ fault
unfolding ata_handler
ata_handler-fault k input bus major event s handle empty =
    rw (==_of_ne (s.discard_irq bus) 1 handle, empty) (rw (load-null s.heap) refl)
