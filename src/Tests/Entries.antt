-- ===== src/Tests/Entries.antt =====
-- The completion queue observer of include/cx5_cq_observer.h at concrete inputs.
use mcdma.Prelude.{◌+◌, ◌%◌, ◌^◌, ◌≡◌, refl}
use mcdma.Observer.{
  Buffer, published, live_magic, consumer_of, set_consumer, observe, entry_ready,
  observe-set_consumer,
}

-- every entry written in the first lap, by a receive
abbrev first_lap : Buffer
first_lap = record { live = live_magic; consumer_word = 0; byte = λ i. 0x20 }

-- an index past the end of the 24 bits
observe-set_consumer_example :
    (consumer_of (set_consumer first_lap (2 ^ 24 + 5)) ≡ (2 ^ 24 + 5) % 2 ^ 24)
    × (observe (set_consumer first_lap (2 ^ 24 + 5)) ≡ entry_ready first_lap (2 ^ 24 + 5))
observe-set_consumer_example = observe-set_consumer first_lap (2 ^ 24 + 5)

ready-first : entry_ready first_lap 5 ≡ published
unfolding entry_ready
ready-first = refl
