-- ===== src/Core/Command/Mailboxes/RoundTrip.antt =====
-- What `prepare_mailboxes` wrote is what `collect_mailboxes` accepts and reads.
use mcdma.Prelude.{
  ℕ, zero, suc, ◌+◌, ◌-◌, ◌*◌, ◌^◌, ◌≤◌, ◌<◌, ◌≡◌, refl, sym, ap, ◌∙◌, arith, true, false, some,
  List, [], ◌∷◌, ◌++◌, ◌==◌, length, take, drop, drop-append, length-take, length-drop,
  append_assoc, ap₂, take_split, drop-drop,
}
use mcdma.Core.Command.{ok}
use mcdma.Core.Command.Mailboxes.{
  mailboxes_of, mailbox_extent, next_of, part_of, mailbox, mailboxes_from, prepare_mailboxes,
  mailbox_ok, chain_ok, copied_from, collect_mailboxes,
}
use mcdma.Core.Command.Mailboxes.Fields.{mailbox-ok, mailbox-part, length-mailbox}

next-lt : (i count dma : ℕ) → next_of i count dma < 2 ^ 64
next-lt i count dma = ground arith

part-le : (i bytes : ℕ) (xs : List ℕ) → length (take (part_of i bytes) xs) ≤ 512
part-le i bytes xs = omega (arith, length-take (part_of i bytes) xs)

module _ (count dma : ℕ) (payload : List ℕ) (bytes token : ℕ) (blocks : List ℕ) where
  abbrev part : ℕ → List ℕ
  part i = take (part_of i bytes) (drop (i * 512) payload)

  -- The mailboxes from `i` on stand in memory.
  abbrev Holds : ℕ → ℕ → List ℕ → Type 0
  Holds k i rest =
      drop (i * 1024) blocks ≡ mailboxes_from k i count dma (some payload) bytes token ++ rest

  after_mailbox :
      (k i : ℕ) (rest : List ℕ)
      → Holds (suc k) i rest
      → drop (i * 1024) blocks
        ≡ mailbox (part i) (next_of i count dma) i token
          ++ (mailboxes_from k (i + 1) count dma (some payload) bytes token ++ rest)
  unfolding mailboxes_from
  after_mailbox k i rest h =
      h
      ∙ append_assoc (mailbox (part i) (next_of i count dma) i token)
          (mailboxes_from k (i + 1) count dma (some payload) bytes token) rest

  Holds-next : (k i : ℕ) (rest : List ℕ) → Holds (suc k) i rest → Holds k (i + 1) rest
  Holds-next k i rest h =
      let next : (i + 1) * 1024 ≡ i * 1024 + 1024 = omega arith in
      let later = mailboxes_from k (i + 1) count dma (some payload) bytes token ++ rest in
      ap (λ j. drop j blocks) next
      ∙ drop-drop (i * 1024) 1024 blocks
      ∙ ap (drop 1024) (after_mailbox k i rest h)
      ∙ drop-append 1024 (mailbox (part i) (next_of i count dma) i token) later (
          length-mailbox (part i) (next_of i count dma) i token []
            (part-le i bytes (drop (i * 512) payload)))

  chain_ok-Holds :
      (k i : ℕ) (rest : List ℕ)
      → Holds k i rest
      → i + k ≤ 2 ^ 32
      → chain_ok k i count dma blocks token ≡ true
  unfolding chain_ok
  chain_ok-Holds zero i rest h small = refl
  chain_ok-Holds (suc k) i rest h small =
      let here : mailbox_ok (drop (i * 1024) blocks) (next_of i count dma) i token ≡ true =
        ap (λ b. mailbox_ok b (next_of i count dma) i token) (after_mailbox k i rest h)
        ∙ mailbox-ok (part i) (next_of i count dma) i token
            (mailboxes_from k (i + 1) count dma (some payload) bytes token ++ rest)
            (part-le i bytes (drop (i * 512) payload)) (next-lt i count dma) (omega arith) in
      rw (here) (chain_ok-Holds k (i + 1) rest (Holds-next k i rest h) (omega arith))

  part_long : (i : ℕ) → bytes ≤ length payload → length (part i) ≡ part_of i bytes
  part_long i h =
      omega (
        arith,
        length-take (part_of i bytes) (drop (i * 512) payload),
        length-drop (i * 512) payload,
      )

  copied_from-Holds :
      (k i : ℕ) (rest : List ℕ)
      → Holds k i rest
      → bytes ≤ length payload
      → bytes ≤ (i + k) * 512
      → copied_from k i blocks bytes ≡ take (bytes - i * 512) (drop (i * 512) payload)
  unfolding copied_from
  copied_from-Holds zero i rest h long enough =
      let done : bytes - i * 512 ≡ 0 = omega arith in rw (done) refl
  copied_from-Holds (suc k) i rest h long enough =
      let later = mailboxes_from k (i + 1) count dma (some payload) bytes token ++ rest in
      let here : take (part_of i bytes) (drop (i * 1024) blocks) ≡ part i =
        ap₂ take (sym (part_long i long)) (after_mailbox k i rest h)
        ∙ mailbox-part (part i) (next_of i count dma) i token later
            (part-le i bytes (drop (i * 512) payload)) in
      let place : drop ((i + 1) * 512) payload ≡ drop 512 (drop (i * 512) payload) =
        ap (λ j. drop j payload) (omega arith) ∙ drop-drop (i * 512) 512 payload in
      let left : bytes - (i + 1) * 512 ≡ bytes - i * 512 - 512 = omega arith in
      ap₂ (λ a b. a ++ b) here
        (copied_from-Holds k (i + 1) rest (Holds-next k i rest h) long (omega arith)
          ∙ ap₂ take left place)
      ∙ take_split (bytes - i * 512) 512 (drop (i * 512) payload)

take-all : (xs : List ℕ) → take (length xs) xs ≡ xs
take-all [] = refl
take-all (x ∷ xs) = ap (λ (l : List ℕ). x ∷ l) (take-all xs)

extent_facts :
    (bytes capacity dma : ℕ)
    → mailbox_extent bytes capacity dma ≡ true
    → (mailboxes_of bytes ≤ 16) × (bytes ≤ mailboxes_of bytes * 512)
unfolding mailbox_extent
extent_facts bytes capacity dma h = ground (arith, h)

prepared :
    (blocks : List ℕ) (capacity dma : ℕ) (payload : List ℕ) (bytes token : ℕ) (sent : List ℕ)
    → prepare_mailboxes blocks capacity dma (some payload) bytes token ≡ (ok, sent)
    → (mailbox_extent bytes capacity dma ≡ true)
      × ((token == 0) ≡ false)
      × (sent
          ≡ mailboxes_from
              (mailboxes_of bytes)
              0
              (mailboxes_of bytes)
              dma
              (some payload)
              bytes
              token
            ++ drop (mailboxes_of bytes * 1024) blocks)
unfolding prepare_mailboxes
prepared blocks capacity dma payload bytes token sent h = ground (arith, h)

-- When `prepare_mailboxes` accepts a payload, `collect_mailboxes` accepts the memory it leaves, with
-- the same address, size and token, and copies that payload over the start of the destination.
pub collect_mailboxes-prepare_mailboxes :
    (blocks payload destination : List ℕ) (capacity dma token : ℕ) (sent : List ℕ)
    → prepare_mailboxes blocks capacity dma (some payload) (length payload) token ≡ (ok, sent)
    → collect_mailboxes sent capacity dma destination (length payload) token
      ≡ (ok, payload ++ drop (length payload) destination)
unfolding collect_mailboxes
collect_mailboxes-prepare_mailboxes blocks payload destination capacity dma token sent h =
    let bytes = length payload in
    let count = mailboxes_of bytes in
    let (fits, tagged, written) = prepared blocks capacity dma payload bytes token sent h in
    let (few, enough) = extent_facts bytes capacity dma fits in
    let rest = drop (count * 1024) blocks in
    let whole : bytes - 0 * 512 ≡ bytes = omega arith in
    let chain : chain_ok count 0 count dma sent token ≡ true =
      chain_ok-Holds count dma payload bytes token sent count 0 rest written (omega arith) in
    let copied : copied_from count 0 sent bytes ≡ payload =
      copied_from-Holds count dma payload bytes token sent count 0 rest written (omega arith)
        (omega arith)
      ∙ ap (λ n. take n payload) whole
      ∙ take-all payload in
    rw (fits, tagged, chain) (ap (λ c. (ok, c ++ drop bytes destination)) copied)
