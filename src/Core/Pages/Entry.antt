-- ===== src/Core/Pages/Entry.antt =====
-- One entry of a page list: where the inner loop of `page_list` stops, and what it writes there.
use mcdma.Prelude.{
  ℕ, ◌+◌, ◌-◌, ◌%◌, ◌^◌, ◌≤◌, ◌<◌, ◌≡◌, refl, sym, ap, ◌∙◌, arith, Bool, true, false, not, ◌&&◌,
  some, List, [], ◌∷◌, ltb, leb, ◌!=◌, Bool-cases, inl, inr, multiple_apart, mod_from_multiple,
  mod-add_replace, mod_at_most, round_down,
}
use mcdma.Core.Pages.{Segment, fits_all, advance, entry_at}
use mcdma.Core.Pages.Chain.{Chain, device_of, device_of-past}

-- The loop at page `va` of a range that ends at `upto`, with segment `s` and those after it left.
pub record Reached (page va upto : ℕ) (first : Bool) (s : Segment) (ss : List Segment)
    : Type 0 where
  pub chain : Chain s.va upto (s ∷ ss)
  pub fits : fits_all page first (s ∷ ss) ≡ true
  pub aligned : va % page ≡ 0
  pub before : first ≡ false → s.va ≤ va
  pub near : s.va < va + page

same_offset :
    (page : ℕ) (first : Bool) (s : Segment) (ss : List Segment)
    → fits_all page first (s ∷ ss) ≡ true
    → s.va % page ≡ s.iova % page
unfolding fits_all
same_offset page first s ss h = ground (arith, h)

later_fits :
    (page : ℕ) (first : Bool) (s : Segment) (ss : List Segment)
    → fits_all page first (s ∷ ss) ≡ true
    → fits_all page false ss ≡ true
unfolding fits_all
later_fits page first s ss h = ground (arith, h)

later_aligned :
    (page : ℕ) (s : Segment) (ss : List Segment)
    → fits_all page false (s ∷ ss) ≡ true
    → s.va % page ≡ 0
unfolding fits_all
later_aligned page s ss h = ground (arith, h)

-- Where the inner loop stops.
pub record Stopped (page va upto : ℕ) (first : Bool) (s : Segment) (ss : List Segment)
    : Type 0 where
  pub first' : Bool
  pub here : Segment
  pub more : List Segment
  pub result : advance va first (s ∷ ss) ≡ (first', here ∷ more)
  pub state : Reached page va upto first' here more
  pub covers : va < here.va + here.len
  pub starts : (x : ℕ) → va ≤ x → s.va ≤ x → here.va ≤ x
  pub same : (x : ℕ) → va ≤ x → device_of (s ∷ ss) x ≡ device_of (here ∷ more) x

pub advance-Stopped :
    (page va upto : ℕ) (first : Bool) (s : Segment) (ss : List Segment)
    → 0 < page
    → va < upto
    → Reached page va upto first s ss
    → Stopped page va upto first s ss
unfolding advance
advance-Stopped page va upto first s [] p b r =
    let (v, l, w, i, end_at) = r.chain in
    record {
      first' = first;
      here = s;
      more = [];
      result = refl;
      state = r;
      covers = omega arith;
      starts = λ x a b. b;
      same = λ x a. refl;
    }
advance-Stopped page va upto first s (t ∷ ss) p b r =
    let (v, l, w, i, later) = r.chain in
    let (tv, tl, tw, ti, rest) = later in
    elim (Bool-cases (leb (s.va + s.len) va)) [
      | inr stop ↦ record {
        first' = first;
        here = s;
        more = t ∷ ss;
        result = rw (stop) refl;
        state = r;
        covers = ground (arith, stop);
        starts = λ x a b. b;
        same = λ x a. refl;
      }
      | inl on ↦
          let next : Stopped page va upto false t ss =
            advance-Stopped page va upto false t ss p b record {
              chain = (refl, tl, tw, ti, rest);
              fits = later_fits page first s (t ∷ ss) r.fits;
              aligned = r.aligned;
              before = λ e. ground (arith, on, tv);
              near = ground (arith, on, tv);
            } in
          record {
            first' = next.first';
            here = next.here;
            more = next.more;
            result = rw (on) next.result;
            state = next.state;
            covers = next.covers;
            starts = λ x a b. next.starts x a (ground (arith, on, tv));
            same = λ x a. device_of-past s (t ∷ ss) x (ground (arith, on)) ∙ next.same x a;
          }
    ]

wrapped_early :
    (iova va start gap : ℕ)
    → iova < 2 ^ 64
    → start ≡ va + gap
    → gap ≤ iova
    → start < 2 ^ 64
    → (iova + 2 ^ 64 + va - start) % 2 ^ 64 ≡ iova - gap
wrapped_early iova va start gap a b c d = omega arith

wrapped_late :
    (iova va start : ℕ)
    → start ≤ va
    → iova + (va - start) < 2 ^ 64
    → (iova + 2 ^ 64 + va - start) % 2 ^ 64 ≡ iova + (va - start)
wrapped_late iova va start a b = omega arith

-- An entry of the list: an aligned device page that carries on from the segments.
abbrev pub IsEntry : ℕ → ℕ → ℕ → Bool → Segment → List Segment → ℕ → Type 0
IsEntry page va upto first s ss p =
    (entry_at page va first s ≡ some p)
    × (p % page ≡ 0)
    × ((x : ℕ)
        → va ≤ x
        → s.va ≤ x
        → x < va + page
        → x < upto
        → device_of (s ∷ ss) x ≡ some (p + (x - va)))

-- A page behind the start of a segment stays inside it, as the next one starts a page.
stays_inside :
    (page va upto : ℕ) (first : Bool) (s : Segment) (ss : List Segment) (x : ℕ)
    → 0 < page
    → Reached page va upto first s ss
    → va < s.va + s.len
    → s.va ≤ x
    → x < va + page
    → x < upto
    → x < s.va + s.len
stays_inside page va upto first s [] x p r c a b u =
    let (v, l, w, i, end_at) = r.chain in omega arith
stays_inside page va upto first s (t ∷ ss) x p r c a b u =
    let (v, l, w, i, later) = r.chain in
    let (tv, tl, tw, ti, rest) = later in
    let aligned : t.va % page ≡ 0 =
      later_aligned page t ss (later_fits page first s (t ∷ ss) r.fits) in
    omega (arith, multiple_apart va t.va page p r.aligned aligned (omega arith))

maps :
    (s : Segment) (ss : List Segment) (x : ℕ)
    → s.va ≤ x
    → x < s.va + s.len
    → device_of (s ∷ ss) x ≡ some (s.iova + (x - s.va))
unfolding device_of
maps s ss x a b = ground arith

first_one :
    {page va upto : ℕ} {first : Bool} {s : Segment} {ss : List Segment}
    → Reached page va upto first s ss
    → va < s.va
    → first ≡ true
first_one {first = true} r h = refl
first_one {first = false} r h = absurd (omega (arith, r.before refl))

starts_page :
    {page va upto : ℕ} {first : Bool} {s : Segment} {ss : List Segment}
    → Reached page va upto first s ss
    → (not first && s.va % page != 0) ≡ false
starts_page {first = true} r = refl
starts_page {page = page} {first = false} {s = s} {ss = ss} r =
    ground (arith, later_aligned page s ss r.fits)

early-IsEntry :
    (page va upto : ℕ) (first : Bool) (s : Segment) (ss : List Segment)
    → 0 < page
    → Reached page va upto first s ss
    → va < s.va + s.len
    → va < s.va
    → (p : ℕ) × IsEntry page va upto first s ss p
unfolding entry_at
early-IsEntry page va upto first s ss pos r c early =
    let (v, l, w, i, later) = r.chain in
    let offset = same_offset page first s ss r.fits in
    let gap : s.va % page ≡ s.va - va =
      mod_from_multiple va s.va page pos r.aligned (omega arith) r.near in
    let low : s.va - va ≤ s.iova = omega (arith, mod_at_most s.iova page pos, gap, offset) in
    let value =
      wrapped_early s.iova va s.va (s.va - va) (omega arith) (omega arith) low (omega arith) in
    let page_of : (s.iova - (s.va - va)) % page ≡ 0 =
      ap (λ g. (s.iova - g) % page) (sym gap ∙ offset) ∙ round_down s.iova page pos in
    (
      s.iova - (s.va - va),
      (
        ground (arith, value, page_of, r.near, offset, first_one r early),
        page_of,
        λ x a b d u.
            maps s ss x b (stays_inside page va upto first s ss x pos r c b d u)
            ∙ ap some (omega arith),
      ),
    )

late-IsEntry :
    (page va upto : ℕ) (first : Bool) (s : Segment) (ss : List Segment)
    → 0 < page
    → Reached page va upto first s ss
    → va < s.va + s.len
    → s.va ≤ va
    → (p : ℕ) × IsEntry page va upto first s ss p
unfolding entry_at
late-IsEntry page va upto first s ss pos r c late =
    let (v, l, w, i, later) = r.chain in
    let offset = same_offset page first s ss r.fits in
    let value = wrapped_late s.iova va s.va late (omega arith) in
    let whole : s.va + (va - s.va) ≡ va = omega arith in
    let page_of : (s.iova + (va - s.va)) % page ≡ 0 =
      mod-add_replace s.iova s.va (va - s.va) page (sym offset)
      ∙ ap (λ a. a % page) whole
      ∙ r.aligned in
    (
      s.iova + (va - s.va),
      (
        ground (arith, value, page_of, offset, starts_page r),
        page_of,
        λ x a b d u.
            maps s ss x b (stays_inside page va upto first s ss x pos r c b d u)
            ∙ ap some (omega arith),
      ),
    )

pub Reached-IsEntry :
    (page va upto : ℕ) (first : Bool) (s : Segment) (ss : List Segment)
    → 0 < page
    → Reached page va upto first s ss
    → va < s.va + s.len
    → (p : ℕ) × IsEntry page va upto first s ss p
Reached-IsEntry page va upto first s ss pos r c = elim (Bool-cases (ltb va s.va)) [
  | inl early ↦ early-IsEntry page va upto first s ss pos r c (ground (arith, early))
  | inr late ↦ late-IsEntry page va upto first s ss pos r c (ground (arith, late))
]
