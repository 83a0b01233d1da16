-- ===== src/Ata/Tests.antt =====
-- The theorems on the ATA driver at a queue with two reads of the first disk.
use tempos.Base.{
  ℕ, ◌+◌, ◌%◌, ◌^◌, ◌≡◌, refl, none, some, [], ◌∷◌, arith, update, ok, out_of_fuel, Returns,
  returns,
}
use tempos.LinkedList.{Ptr, node, write}
use tempos.Ata.Ports.{Input, start_transfer, send_words, read_words, read_target, read_hd_sector}
use tempos.Ata.Program.{latched_addr, start_transfer-addr}
use tempos.Ata.Bytes.{words, word_at, read_words-send_words}
use tempos.Ata.Queue.{Request, Holding, Queued, read_async-Queued}
use tempos.Ata.Lost.{read_sync-endless}
use tempos.Ata.Identify.{DevInfo, Identified, get_dev_info, get_dev_info-fields}
use tempos.Ata.{Ata, BlockOp, issue, read_queue, read_async_ata_sector, read_sync_ata_sector}

abbrev input : Input
input = record { inb = λ port. 0; inw = λ i. i }

abbrev read_op : Ptr → BlockOp
read_op buff = record { op = 1; device = 0; buff = buff }

abbrev request : (node bop buff : Ptr) → Request
request node bop buff = record { node = node; bop = bop; block = read_op buff }

abbrev ata : Ata
ata = record {
  blk_queue = update (λ _. 0) 0 64;
  heap = write (write (λ _. none) 64 (some (node 90 65))) 65 (some (node 91 0));
  bops = update (update (λ _. none) 90 (some (read_op 200))) 91 (some (read_op 201));
  status = λ _. 8;
  addr = λ buff. buff + 1000;
  bytes = λ buff i. 0;
  discard_irq = λ _. 0;
  ptable = λ _. some [];
}

ata-Holding : Holding ata 0 (request 64 90 200 ∷ request 65 91 201 ∷ [])
unfolding write
ata-Holding = record { held = ground arith; start = refl; stored = ground arith }

start_transfer-addr_example :
    latched_addr 1 (start_transfer input 1 0 123456789012 0x24) (record { now = 1; before = 2 })
    ≡ 123456789012 % 2 ^ 48
start_transfer-addr_example =
    start_transfer-addr input 1 0 123456789012 0x24 (record { now = 1; before = 2 }) (omega arith)

read_words-send_words_example :
    let back = read_words 256 (word_at (words (send_words 256 0x1F0 (λ i. i % 256)))) (λ _. 0) in
    (back 200 ≡ 200) × (back 201 ≡ 255)
read_words-send_words_example =
    read_words-send_words 256 0x1F0 (λ i. i % 256) (λ _. 0) 100 (λ i. omega arith) (omega arith)

read_async-Queued_example :
    Returns
      (Queued ata 0
        (request 64 90 200 ∷ request 65 91 201 ∷ [])
        (request 66 92 202)
        (start_transfer input 0 0 1202 0x24))
      (read_async_ata_sector 3 input 66 92 3 0 202 ata)
unfolding write read_queue issue read_hd_sector read_target
read_async-Queued_example =
    read_async-Queued 3 input 0 3 0 202 ata (request 64 90 200 ∷ request 65 91 201 ∷ []) 66 92
      (start_transfer input 0 0 1202 0x24) ata-Holding refl (omega arith) (omega arith) refl
      (omega arith) refl refl

read_sync-endless_example :
    (read_sync_ata_sector 7 (λ event t. ok (t, [])) input 66 0 3 0 202 ata) ≡ out_of_fuel
unfolding read_queue
read_sync-endless_example =
    read_sync-endless 7 (λ event t. ok (t, [])) input 66 3 0 0 202 ata refl
      (λ event t busy. returns busy)

abbrev large : ℕ → ℕ
large i = 0x9000

abbrev no_info : DevInfo
no_info = record {
  flags = 0;
  sectors = 0;
  type = 0;
  serial = large;
  firmware_rev = large;
  model = large;
  mult_secs = 0;
  max_secs = large;
  capabilities = large;
  mult_sec = 0;
  mword_dma = 0;
  major_ver = 0;
  minor_ver = 0;
  cmds_supported = large;
  ultra_dma = 0;
  max_lba48 = large;
}

get_dev_info-fields_example : Identified (λ i. i + 300) (get_dev_info (λ i. i + 300) no_info)
get_dev_info-fields_example = get_dev_info-fields (λ i. i + 300) no_info
