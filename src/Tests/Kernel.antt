-- ===== src/Tests/Kernel.antt =====
-- The modules of Core at concrete inputs.
use mcdma.Prelude.{
  ℕ, ◌+◌, ◌*◌, ◌^◌, ◌≤◌, ◌<◌, ◌≡◌, refl, arith, true, none, some, List, [], ◌∷◌, ◌++◌, length, drop,
  checksum, replicate,
}
use mcdma.UserQueue.{reset}
use mcdma.Core.WorkQueue.{new_queue, keys_set}
use mcdma.Core.WorkQueue.Mirror.{
  Call, IsKeyed, posting, completing, mirror_answers, kernel_answers, mirror_answers-kernel_answers,
}
use mcdma.Core.Pages.{Segment, choose_log_page, segments_valid, chain_end, choose_from, fits_all}
use mcdma.Core.Pages.Choice.{Translates, choose_log_page-Translates}
use mcdma.Core.Command.{ok, busy, encode_command, decode_inline, command_bytes}
use mcdma.Core.Command.Signed.{encode_command-signed}
use mcdma.Core.Command.Mailboxes.{prepare_mailboxes, mailbox_extent, collect_mailboxes}
use mcdma.Core.Command.Mailboxes.RoundTrip.{collect_mailboxes-prepare_mailboxes}
use mcdma.Core.Command.Lease.{
  new_lease, begin, outstanding_all, outstanding, after, finish, time_out, LeaseCall, beginning,
  finishing, timing_out,
}
use mcdma.Core.Device.{Registers, Device, inspect, pci_identity}
use mcdma.Core.Device.Bounds.{inspect-bounds}

abbrev two_segments : List Segment
two_segments =
    record { va = 0x10000; iova = 0x50000; len = 0x20000 }
    ∷ record { va = 0x30000; iova = 0x90000; len = 0x10000 }
    ∷ []

chosen : choose_log_page two_segments 0x10100 0x28000 0x10100 512 ≡ 16
unfolding choose_log_page segments_valid chain_end choose_from fits_all
chosen = refl

choose_log_page-Translates_example :
    Translates two_segments 0x10100 0x28000
      (choose_log_page two_segments 0x10100 0x28000 0x10100 512)
      512
choose_log_page-Translates_example =
    choose_log_page-Translates two_segments 0x10100 0x28000 0x10100 512
      (λ e. absurd (omega (arith, e, chosen)))

abbrev calls : List LeaseCall
calls = beginning 7 ∷ finishing 7 ∷ beginning 8 ∷ timing_out ∷ finishing 8 ∷ []

-- The timed out command stays outstanding.
still_outstanding : outstanding_all none new_lease calls ≡ some 8
unfolding outstanding_all outstanding after begin finish time_out
still_outstanding = refl

abbrev ten_bytes : List ℕ
ten_bytes = 1 ∷ 2 ∷ 3 ∷ 4 ∷ 5 ∷ 6 ∷ 7 ∷ 8 ∷ 9 ∷ 10 ∷ []

abbrev old_entry : List ℕ
old_entry = replicate 64 0xee

abbrev command_made : List ℕ
command_made = (encode_command old_entry ten_bytes 10 16 7 0 0).1

made : encode_command old_entry ten_bytes 10 16 7 0 0 ≡ (ok, command_made)
unfolding encode_command
made = refl

encode_command-signed_example :
    (length command_made ≡ command_bytes)
    × (checksum 0xff command_made ≡ 0)
    × ((decode_inline command_made 7 (replicate 16 0) 16).error ≡ busy)
encode_command-signed_example =
    encode_command-signed old_entry ten_bytes 10 16 7 0 0 command_made (replicate 16 0) 16 made
      (omega arith) (omega arith) (omega arith)

abbrev long_payload : List ℕ
long_payload = replicate 600 0x5a

abbrev boxes : List ℕ
boxes = (prepare_mailboxes (replicate 2048 0) 2048 0x10000 (some long_payload) 600 7).1

prepared :
    prepare_mailboxes (replicate 2048 0) 2048 0x10000 (some long_payload) (length long_payload) 7
    ≡ (ok, boxes)
unfolding prepare_mailboxes mailbox_extent
prepared = refl

collect_mailboxes-prepare_mailboxes_example :
    collect_mailboxes boxes 2048 0x10000 (replicate 1000 1) (length long_payload) 7
    ≡ (ok, long_payload ++ drop (length long_payload) (replicate 1000 1))
collect_mailboxes-prepare_mailboxes_example =
    collect_mailboxes-prepare_mailboxes (replicate 2048 0) long_payload (replicate 1000 1) 2048
      0x10000 7 boxes prepared

abbrev registers : Registers
registers = record {
  identity = pci_identity;
  revision = 0;
  firmware = 0x00100010;
  interface_version = 0x00050003;
  geometry = 0x56;
  not_ready = 0;
}

abbrev card : Device
card = (inspect registers).1

seen : inspect registers ≡ (ok, card)
unfolding inspect
seen = refl

few_slots : 31 < 2 ^ card.log_slots
unfolding inspect
few_slots = omega arith

inspect-bounds_example :
    (2 ^ card.log_slots ≤ 32)
    × (command_bytes ≤ 2 ^ card.log_stride)
    × (31 * 2 ^ card.log_stride + command_bytes ≤ 4096)
inspect-bounds_example = inspect-bounds registers card 31 seen few_slots

abbrev queue_calls : List Call
queue_calls =
    posting 5 8 64 (3 ∷ []) 1 ∷ posting 6 16 4096 (3 ∷ 4 ∷ []) 2 ∷ completing 1 ∷ completing 1 ∷ []

keys_one : keys_set 1 (3 ∷ []) ≡ true
unfolding keys_set
keys_one = refl

keys_two : keys_set 2 (3 ∷ 4 ∷ []) ≡ true
unfolding keys_set
keys_two = refl

mirror_answers-kernel_answers_example :
    mirror_answers queue_calls reset ≡ kernel_answers queue_calls new_queue 0
mirror_answers-kernel_answers_example =
    mirror_answers-kernel_answers queue_calls (keyed_one, (keyed_two, (tt, (tt, tt))))
  where
    keyed_one : IsKeyed (3 ∷ []) 1
    keyed_one = (omega arith, omega arith, keys_one)

    keyed_two : IsKeyed (3 ∷ 4 ∷ []) 2
    keyed_two = (omega arith, omega arith, keys_two)
