-- ===== src/Core/Pages.antt =====
-- core/cx5_verbs.cpp: the pages of a memory key. `x & (2 ^ k - 1)` is `x % 2 ^ k`, and the test
-- `(x ^ y) & (2 ^ k - 1)` says that these differ. UINT64_MAX is 2 ^ 64 - 1.
use mcdma.Prelude.{
  ℕ, zero, suc, ◌+◌, ◌-◌, ◌*◌, ◌/◌, ◌%◌, ◌^◌, Bool, true, false, not, ◌&&◌, ◌||◌, Option, none,
  some, List, [], ◌∷◌, ltb, leb, ◌==◌, ◌!=◌, if◌then◌else◌,
}
pub mod Chain
pub mod Entry
pub mod Table
pub mod Choice

-- `Segment`
pub record Segment : Type 0 where
  pub va : ℕ
  pub iova : ℕ
  pub len : ℕ

abbrev pub u64_max : ℕ
u64_max = 2 ^ 64 - 1

-- The loop of `segments_valid`: where the segments end, or `none` for a bad one.
unfoldable pub chain_end : ℕ → List Segment → Option ℕ
chain_end expect [] = some expect
chain_end expect (s ∷ ss) =
    let rest = chain_end (s.va + s.len) ss in
    if s.va != expect
      || s.len == 0
      || s.len % 4096 != 0
      || s.iova == 0
      || s.iova % 4096 != 0
      || ltb (u64_max - s.len) s.va
      || ltb (u64_max - s.len) s.iova
    then none
    else rest

-- `segments_valid`
unfoldable pub segments_valid : List Segment → ℕ → ℕ → Bool
segments_valid [] start len = false
segments_valid (s ∷ ss) start len =
    if len == 0 || ltb (u64_max - len) start
    then false
    else elim (chain_end (start - start % 4096) (s ∷ ss)) [
      | none ↦ false
      | some e ↦ leb (start + len) e
    ]

-- The test of one page size on the segments; only the first may start inside a page.
unfoldable pub fits_all : ℕ → Bool → List Segment → Bool
fits_all page first [] = true
fits_all page first (s ∷ ss) =
    s.va % page == s.iova % page && (first || s.va % page == 0) && fits_all page false ss

-- the number of pages of `2 ^ log` bytes that the range touches
abbrev pub entries_of : ℕ → ℕ → ℕ → ℕ
entries_of page start len = (start % page + len + (page - 1)) / page

-- The loop of `choose_log_page` from `log` on, for the `fuel` sizes that are left.
unfoldable pub choose_from : ℕ → ℕ → List Segment → ℕ → ℕ → ℕ → ℕ → ℕ → ℕ
choose_from zero log ss start len alias capacity best = best
choose_from (suc fuel) log ss start len alias capacity best =
    let page = 2 ^ log in
    let better = if leb (entries_of page start len) capacity then log else best in
    let rest = choose_from fuel (log + 1) ss start len alias capacity better in
    if start % page != alias % page
    then best
    else if not (fits_all page true ss)
    then best
    else if ltb (u64_max - start % page - (page - 1)) len
    then best
    else rest

-- `choose_log_page`
unfoldable pub choose_log_page : List Segment → ℕ → ℕ → ℕ → ℕ → ℕ
choose_log_page ss start len alias capacity =
    if not (segments_valid ss start len) || start % 4096 != alias % 4096
    then 0
    else choose_from 19 12 ss start len alias capacity 0

-- The inner loop of `page_list`: the segments from `k` on, and whether `k` is still 0.
unfoldable pub advance : ℕ → Bool → List Segment → Bool × List Segment
advance va first [] = (first, [])
advance va first (s ∷ []) = (first, s ∷ [])
advance va first (s ∷ t ∷ ss) =
    let later = advance va false (t ∷ ss) in
    if leb (s.va + s.len) va then later else (first, s ∷ t ∷ ss)

-- One entry of `page_list`, from segment `s`; `none` where it returns 0.
unfoldable pub entry_at : ℕ → ℕ → Bool → Segment → Option ℕ
entry_at page va first s =
    let p = (s.iova + 2 ^ 64 + va - s.va) % 2 ^ 64 in
    if ltb va s.va
    then (if not first || leb page (s.va - va) || s.va % page != s.iova % page || p % page != 0
        then none
        else some p)
    else if leb s.len (va - s.va)
        || s.va % page != s.iova % page
        || not first && s.va % page != 0
        || p % page != 0
    then none
    else some p

-- The loop of `page_list` over its `n` entries.
unfoldable pub entries_from : ℕ → ℕ → ℕ → Bool → List Segment → Option (List ℕ)
entries_from zero page va first ss = some []
entries_from (suc n) page va first ss =
    let (first', here) = advance va first ss in
    let rest = entries_from n page ((va + page) % 2 ^ 64) first' here in
    elim here [
      | [] ↦ none
      | s ∷ more ↦ elim (entry_at page va first' s) [
        | none ↦ none
        | some p ↦ elim rest [ none ↦ none | some ps ↦ some (p ∷ ps) ]
      ]
    ]

-- `page_list`: the entries, or `none` for its 0.
unfoldable pub page_list : List Segment → ℕ → ℕ → ℕ → ℕ → Option (List ℕ)
page_list ss start len log capacity =
    let page = 2 ^ log in
    let n = entries_of page start len in
    if ltb log 12 || ltb 30 log || not (segments_valid ss start len)
    then none
    else if ltb (u64_max - start % page - (page - 1)) len
    then none
    else if n == 0 || ltb capacity n
    then none
    else entries_from n page (start - start % page) true ss
