-- ===== src/Tests/Stream.antt =====
-- The Thunderbolt link of rpc/link_tb.c at concrete inputs.
use mcdma.Prelude.{
  ℕ, ◌≡◌, refl, true, false, none, some, List, [], ◌∷◌, ◌++◌, arith, length, if◌then◌else◌, ltb,
  le_bytes,
}
use mcdma.Tb.{
  Link, Provider, Source, Can, c_signal, packets_of, headed, read, msg_max, post_send, has_room,
  send_head, count_write, can_write,
}
use mcdma.Tb.Account.{IsBooked, IsYoung}
use mcdma.Tb.Total.{write_try_total}
use mcdma.Tb.Receive.{take_all}
use mcdma.Tb.Receive.Chunk.{IsOpen}
use mcdma.Tb.Receive.Deliver.{Delivered, write_try-Delivered}
use mcdma.Tb.Receive.Guard.{IsConfined, IsSafe, take_all-IsSafe}

abbrev willing : Provider
willing k = true

-- a fresh link whose peer may write the bytes [64, 4096) of its region
abbrev fresh : Link
fresh = record {
  depth = 256;
  peer_slots = 64;
  tx_seq = 0;
  packets = 0;
  fence_acked = 0;
  tx_posted = 0;
  tx_done = 0;
  staged = 0;
  unstaged = 0;
  tx = λ i. record { packets = 0; staged = 0; bytes = 0; payload = 0 };
  sent_bytes = 0;
  completed_bytes = 0;
  sent_payload = 0;
  completed_payload = 0;
  writes_posted = 0;
  writes_placed = 0;
  wire = [];
  rx_seq = 0;
  want_len = 0;
  want_off = 0;
  window = some (64, 4096);
  mem = λ x. 0;
  poisoned = none;
}

fresh-IsBooked : IsBooked fresh
fresh-IsBooked = record {
  done_le = omega arith;
  ring = omega arith;
  packets_sum = refl;
  staged_sum = refl;
  bytes_sum = refl;
  depth_ok = omega arith;
  stage_ok = omega arith;
  depth_word = omega arith;
}

fresh-IsYoung : IsYoung fresh
fresh-IsYoung = record { posts = omega arith; stages = omega arith; sent = omega arith }

-- one signal posted
abbrev signalled : Link
signalled = record fresh {
  tx_seq = 1;
  tx_posted = 1;
  packets = 1;
  staged = 1;
  sent_bytes = 32;
  tx = λ j.
      if ltb 0 j then fresh.tx j else record { packets = 1; staged = 1; bytes = 32; payload = 0 };
  wire = headed fresh c_signal 64 0 9 [] ∷ [];
}

send_signal :
    send_head willing c_signal 64 0 9 [] fresh
    ≡ (true, (send_head willing c_signal 64 0 9 [] fresh).1)
unfolding send_head post_send le_bytes
send_signal = refl

room_for_one : has_room fresh (packets_of (length (headed fresh c_signal 64 0 9 []))) 1 false ≡ true
unfolding has_room le_bytes
room_for_one = refl

-- one send of three bytes in flight
abbrev busy : Link
busy = record fresh {
  tx_posted = 1;
  packets = 1;
  sent_bytes = 3;
  tx = λ j. record { packets = 1; staged = 0; bytes = 3; payload = 3 };
}

busy-IsBooked : IsBooked busy
busy-IsBooked = record {
  done_le = omega arith;
  ring = omega arith;
  packets_sum = refl;
  staged_sum = refl;
  bytes_sum = refl;
  depth_ok = omega arith;
  stage_ok = omega arith;
  depth_word = omega arith;
}

busy-IsYoung : IsYoung busy
busy-IsYoung = record { posts = omega arith; stages = omega arith; sent = omega arith }

abbrev source : Source
source = record { byte = λ x. x; len = 100; seg = 64 }

can_write_fifty : can_write fresh source 20 50 ≡ Can.ready
unfolding can_write count_write msg_max
can_write_fifty = refl

fresh-IsOpen : IsOpen fresh 0 64 4096
fresh-IsOpen = record {
  expects = refl;
  between = refl;
  window_open = refl;
  not_poisoned = refl;
  high = omega arith;
  seq_word = omega arith;
}

-- the state after the write, which crosses from one registration of the source into the next
abbrev sender : Link
sender =
    (write_try_total willing source 20 100 50 fresh (λ k. refl) (omega arith) can_write_fifty).0

write_try-Delivered_example :
    (ms : List (List ℕ)) × (sender.wire ≡ [] ++ ms)
    × Delivered willing ms fresh sender.tx_seq 64 4096 100 (read source.byte 20 50)
write_try-Delivered_example =
    write_try-Delivered willing willing source 20 100 50 64 4096 fresh sender fresh
      (write_try_total willing source 20 100 50 fresh (λ k. refl) (omega arith) can_write_fifty).1
      fresh-IsOpen (omega arith) (omega arith)

fresh-IsConfined : IsConfined fresh
fresh-IsConfined = record { awaited = λ n. absurd (n refl) }

-- a signal inside the window, then a message that is too short
abbrev arriving : List (List ℕ)
arriving = headed fresh c_signal 64 0 9 [] ∷ (1 ∷ []) ∷ []

take_all-IsSafe_example : IsSafe fresh (take_all willing arriving fresh).1
take_all-IsSafe_example = take_all-IsSafe willing arriving fresh fresh-IsConfined
