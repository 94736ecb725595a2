-- ===== src/Core/Pages/Table.antt =====
-- The entries of a page list: one aligned device page per page of the range.
use mcdma.Prelude.{
  ℕ, zero, suc, ◌+◌, ◌-◌, ◌*◌, ◌%◌, ◌^◌, ◌≤◌, ◌<◌, ◌≡◌, refl, sym, ap, ◌∙◌, arith, Bool, true, ◌&&◌,
  Option, none, some, List, [], ◌∷◌, ltb, ◌==◌, if◌then◌else◌, Bool-cases, inl, inr,
  mod-add_multiple,
}
use mcdma.Core.Pages.{Segment, advance, entry_at, entries_from}
use mcdma.Core.Pages.Chain.{device_of}
use mcdma.Core.Pages.Entry.{Reached, Stopped, advance-Stopped, Reached-IsEntry}

-- The device address that a table of pages gives the byte at an offset.
unfoldable pub translate : ℕ → List ℕ → ℕ → Option ℕ
translate page [] o = none
translate page (p ∷ ps) o = if ltb o page then some (p + o) else translate page ps (o - page)

unfoldable pub all_aligned : ℕ → List ℕ → Bool
all_aligned page [] = true
all_aligned page (p ∷ ps) = p % page == 0 && all_aligned page ps

unfoldable pub count : List ℕ → ℕ
count [] = 0
count (p ∷ ps) = suc (count ps)

-- A table of `n` pages for the range from `va` to `limit`.
pub record TableOf (n page va limit : ℕ) (first : Bool) (s : Segment) (ss : List Segment)
    : Type 0 where
  pub pages : List ℕ
  pub result : entries_from n page va first (s ∷ ss) ≡ some pages
  pub counted : count pages ≡ n
  pub aligned : all_aligned page pages ≡ true
  pub same :
      (x : ℕ) → va ≤ x → s.va ≤ x → x < limit → translate page pages (x - va) ≡ device_of (s ∷ ss) x

no_wrap :
    (m page va upto : ℕ) (first : Bool) (ss : List Segment)
    → va + suc m * page < upto + page
    → upto < 2 ^ 64
    → entries_from m page ((va + page) % 2 ^ 64) first ss ≡ entries_from m page (va + page) first ss
unfolding entries_from
no_wrap zero page va upto first ss h u = refl
no_wrap (suc m) page va upto first ss h u =
    let small : (va + page) % 2 ^ 64 ≡ va + page = grind (arith, h, u) in
    ap (λ v. entries_from (suc m) page v first ss) small

next_page :
    {page va upto : ℕ} {first : Bool} {s : Segment} {ss : List Segment}
    → 0 < page
    → Reached page va upto first s ss
    → Reached page (va + page) upto first s ss
next_page {page} {va} {upto} {first} {s} {ss} pos r = record {
  chain = r.chain;
  fits = r.fits;
  aligned = mod-add_multiple va page page r.aligned ∙ grind arith;
  before = λ e. omega (arith, r.before e);
  near = omega (arith, r.near);
}

one_entry :
    (n page va : ℕ) (first first' : Bool) (ss : List Segment) (s : Segment) (more : List Segment)
    (p : ℕ) (ps : List ℕ)
    → advance va first ss ≡ (first', s ∷ more)
    → entry_at page va first' s ≡ some p
    → entries_from n page ((va + page) % 2 ^ 64) first' (s ∷ more) ≡ some ps
    → entries_from (suc n) page va first ss ≡ some (p ∷ ps)
unfolding entries_from
one_entry n page va first first' ss s more p ps a e r =
    let flag : (advance va first ss).0 ≡ first' = ap (λ w. w.0) a in
    let left : (advance va first ss).1 ≡ s ∷ more = ap (λ w. w.1) a in
    rw (entries_from, left, flag, e, left, flag, r) refl

pub entries_from-TableOf :
    (n page va upto limit : ℕ) (first : Bool) (s : Segment) (ss : List Segment)
    → 0 < page
    → Reached page va upto first s ss
    → limit ≤ va + n * page
    → va + n * page < limit + page
    → limit ≤ upto
    → upto < 2 ^ 64
    → TableOf n page va limit first s ss
unfolding entries_from count all_aligned translate
entries_from-TableOf zero page va upto limit first s ss pos r enough tight l u = record {
  pages = [];
  result = refl;
  counted = refl;
  aligned = refl;
  same = λ x a b c. absurd (omega arith);
}
entries_from-TableOf (suc n) page va upto limit first s ss pos r enough tight l u =
    let stop : Stopped page va upto first s ss =
      advance-Stopped page va upto first s ss pos (grind arith) r in
    let (p, is) =
      Reached-IsEntry page va upto stop.first' stop.here stop.more pos stop.state stop.covers in
    let (found, aligned, maps_page) = is in
    let rest : TableOf n page (va + page) limit stop.first' stop.here stop.more =
      entries_from-TableOf n page (va + page) upto limit stop.first' stop.here stop.more pos
        (next_page pos stop.state) (grind arith) (grind arith) l u in
    record {
      pages = p ∷ rest.pages;
      result =
          one_entry n page va first stop.first' (s ∷ ss) stop.here stop.more p rest.pages
            stop.result found
            (no_wrap n page va upto stop.first' (stop.here ∷ stop.more) (grind arith) u
              ∙ rest.result);
      counted = ap suc rest.counted;
      aligned = ground (arith, aligned, rest.aligned);
      same = λ x a b c. elim (Bool-cases (ltb (x - va) page)) [
        | inl on ↦
            rw (on) (sym (maps_page x a (stop.starts x a b) (ground (arith, on)) (omega arith)))
            ∙ sym (stop.same x a)
        | inr behind ↦
            let step : x - va - page ≡ x - (va + page) = omega arith in
            let far : va + page ≤ x = ground (arith, behind) in
            rw (behind) (
              ap (translate page rest.pages) step
              ∙ rest.same x far (omega (arith, stop.state.near, far)) c)
            ∙ sym (stop.same x a)
      ];
    }
