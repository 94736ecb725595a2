-- ===== src/Core/Pages/Choice.antt =====
-- The chosen page size gives a page list of the right translation.
use mcdma.Prelude.{
  power_pos, ℕ, zero, suc, ◌+◌, ◌-◌, ◌*◌, ◌%◌, ◌^◌, ◌≤◌, ◌<◌, ◌≡◌, ◌≢◌, ◌⊎◌, refl, sym, ap, ◌∙◌,
  arith, true, false, not, ◌||◌, some, List, [], ◌∷◌, ltb, leb, ◌==◌, ◌!=◌, Bool-cases, inl, inr,
  round_down,
}
use mcdma.Core.Pages.{
  Segment, u64_max, segments_valid, fits_all, entries_of, choose_from, choose_log_page, page_list,
  entries_from,
}
use mcdma.Core.Pages.Chain.{Chain, device_of, segments_valid-Chain, Chain-word}
use mcdma.Core.Pages.Entry.{Reached}
use mcdma.Core.Pages.Table.{TableOf, entries_from-TableOf, translate, all_aligned, count}

-- What the choice has tested for a page size.
abbrev pub IsUsable : List Segment → ℕ → ℕ → ℕ → ℕ → Type 0
IsUsable ss start len capacity log =
    (12 ≤ log)
    × (log ≤ 30)
    × (fits_all (2 ^ log) true ss ≡ true)
    × (len ≤ u64_max - start % 2 ^ log - (2 ^ log - 1))
    × (entries_of (2 ^ log) start len ≤ capacity)

module _ (ss : List Segment) (start len alias capacity : ℕ) where
  taken :
      (fuel log best : ℕ)
      → (choose_from fuel log ss start len alias capacity best ≡ best)
        ⊎ IsUsable ss start len capacity (choose_from fuel log ss start len alias capacity best)
      → IsUsable ss start len capacity best
      → IsUsable ss start len capacity (choose_from fuel log ss start len alias capacity best)
  taken fuel log best (inl e) u = rw (e) u
  taken fuel log best (inr r) u = r

  choose_from-cases :
      (fuel log best : ℕ)
      → 12 ≤ log
      → log + fuel ≤ 31
      → (choose_from fuel log ss start len alias capacity best ≡ best)
        ⊎ IsUsable ss start len capacity (choose_from fuel log ss start len alias capacity best)
  unfolding choose_from
  choose_from-cases zero log best a b = inl refl
  choose_from-cases (suc fuel) log best a b =
      elim (Bool-cases (start % 2 ^ log != alias % 2 ^ log)) [
        | inl apart ↦ inl (rw (apart) refl)
        | inr same ↦ elim (Bool-cases (fits_all (2 ^ log) true ss)) [
          | inr bad ↦ inl (rw (same, bad) refl)
          | inl fits ↦ elim (Bool-cases (ltb (u64_max - start % 2 ^ log - (2 ^ log - 1)) len)) [
            | inl long ↦ inl (rw (same, fits, long) refl)
            | inr guard ↦ elim (Bool-cases (leb (entries_of (2 ^ log) start len) capacity)) [
              | inr many ↦
                  rw (same, fits, guard, many)
                    (choose_from-cases fuel (log + 1) best (omega arith) (omega arith))
              | inl few ↦
                  let usable : IsUsable ss start len capacity log =
                    (a, omega arith, fits, ground (arith, guard), ground (arith, few)) in
                  rw (same, fits, guard, few)
                    (inr (
                      taken fuel (log + 1) log
                        (choose_from-cases fuel (log + 1) log (omega arith) (omega arith)) usable))
            ]
          ]
        ]
      ]

  choose_log_page-IsUsable :
      choose_log_page ss start len alias capacity ≢ 0
      → (segments_valid ss start len ≡ true)
        × IsUsable ss start len capacity (choose_log_page ss start len alias capacity)
  unfolding choose_log_page
  choose_log_page-IsUsable some_size =
      elim (Bool-cases (not (segments_valid ss start len) || start % 4096 != alias % 4096)) [
        | inl bad ↦ absurd (some_size (rw (bad) refl))
        | inr ok ↦ elim (choose_from-cases 19 12 0 (omega arith) (omega arith)) [
          | inl none_found ↦ absurd (some_size (rw (ok) none_found))
          | inr usable ↦ (ground (arith, ok), rw (ok) usable)
        ]
      ]

enough_pages :
    (start len page : ℕ)
    → 0 < page
    → start + len ≤ start - start % page + entries_of page start len * page
enough_pages start len page h = grind arith

few_pages :
    (start len page : ℕ)
    → 0 < page
    → start - start % page + entries_of page start len * page < start + len + page
few_pages start len page h = grind arith

some_pages : (start len page : ℕ) → 0 < page → 0 < len → 0 < entries_of page start len
some_pages start len page h l = grind arith

offset_of : (start o page : ℕ) → 0 < page → start + o - (start - start % page) ≡ start % page + o
offset_of start o page h = grind arith

near_start :
    (log start va : ℕ)
    → 12 ≤ log
    → va ≡ start - start % 4096
    → va < start - start % 2 ^ log + 2 ^ log
near_start log start va a e = grind (arith, power_pos log)

-- The loop at its first page.
start_state :
    (log : ℕ) (s : Segment) (ss : List Segment) (start upto : ℕ)
    → 12 ≤ log
    → Chain (start - start % 4096) upto (s ∷ ss)
    → fits_all (2 ^ log) true (s ∷ ss) ≡ true
    → Reached (2 ^ log) (start - start % 2 ^ log) upto true s ss
start_state log s ss start upto a c fits =
    let (v, l, w, i, later) = c in
    record {
      chain = (refl, l, w, i, later);
      fits = fits;
      aligned = round_down start (2 ^ log) (power_pos log);
      before = λ e. absurd (cc e);
      near = near_start log start s.va a v;
    }

-- A page list that translates every byte of the range as the segments do.
pub record Translates (ss : List Segment) (start len log capacity : ℕ) : Type 0 where
  pub pages : List ℕ
  pub result : page_list ss start len log capacity ≡ some pages
  pub few : count pages ≤ capacity
  pub aligned : all_aligned (2 ^ log) pages ≡ true
  pub same :
      (o : ℕ) → o < len → translate (2 ^ log) pages (start % 2 ^ log + o) ≡ device_of ss (start + o)

empty_range : (start len : ℕ) → segments_valid [] start len ≡ true → false ≡ true
unfolding segments_valid
empty_range start len h = h

accepted :
    (ss : List Segment) (start len capacity log : ℕ)
    → segments_valid ss start len ≡ true
    → IsUsable ss start len capacity log
    → 0 < len
    → page_list ss start len log capacity
      ≡ entries_from (entries_of (2 ^ log) start len) (2 ^ log) (start - start % 2 ^ log) true ss
unfolding page_list
accepted ss start len capacity log valid (low, high, fits, guard, few) pos =
    let some_page = some_pages start len (2 ^ log) (power_pos log) pos in
    let a : ltb log 12 ≡ false = ground (arith, low) in
    let b : ltb 30 log ≡ false = ground (arith, high) in
    let c : ltb (u64_max - start % 2 ^ log - (2 ^ log - 1)) len ≡ false = ground (arith, guard) in
    let d : (entries_of (2 ^ log) start len == 0) ≡ false = ground (arith, some_page) in
    let e : ltb capacity (entries_of (2 ^ log) start len) ≡ false = ground (arith, few) in
    rw (a, b, valid, c, d, e) refl

usable-Translates :
    (ss : List Segment) (start len capacity log : ℕ)
    → segments_valid ss start len ≡ true
    → IsUsable ss start len capacity log
    → Translates ss start len log capacity
usable-Translates [] start len capacity log valid u = absurd (cc (empty_range start len valid))
usable-Translates (s ∷ ss) start len capacity log valid u =
    let (low, high, fits, guard, few) = u in
    let (upto, chain, pos, covered) = segments_valid-Chain (s ∷ ss) start len valid in
    let (v, l, w, i, later) = chain in
    let page = 2 ^ log in
    let va = start - start % page in
    let n = entries_of page start len in
    let table : TableOf n page va (start + len) true s ss =
      entries_from-TableOf n page va upto (start + len) true s ss (power_pos log)
        (start_state log s ss start upto low chain fits)
        (enough_pages start len page (power_pos log)) (few_pages start len page (power_pos log))
        covered (Chain-word s ss (start - start % 4096) upto chain) in
    record {
      pages = table.pages;
      result = accepted (s ∷ ss) start len capacity log valid u pos ∙ table.result;
      few = rw (table.counted) few;
      aligned = table.aligned;
      same = λ o below.
          let place : start + o - va ≡ start % page + o = offset_of start o page (power_pos log) in
          ap (translate page table.pages) (sym place)
          ∙ table.same (start + o) (omega arith) (omega (arith, v)) (omega arith);
    }

-- When `choose_log_page` gives a page size, `page_list` accepts it: it gives at most `capacity`
-- pages, each a multiple of that size, and every byte of the range has by these pages the device
-- address that the segments give it.
pub choose_log_page-Translates :
    (ss : List Segment) (start len alias capacity : ℕ)
    → choose_log_page ss start len alias capacity ≢ 0
    → Translates ss start len (choose_log_page ss start len alias capacity) capacity
choose_log_page-Translates ss start len alias capacity found =
    let (valid, usable) = choose_log_page-IsUsable ss start len alias capacity found in
    usable-Translates ss start len capacity (choose_log_page ss start len alias capacity) valid
      usable
