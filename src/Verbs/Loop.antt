-- ===== src/Verbs/Loop.antt =====
-- The loop of `ep_reg_region`: what its rounds add to the region and the endpoint.
use mcdma.Prelude.{
  ℕ, zero, suc, ◌+◌, ◌-◌, ◌*◌, ◌^◌, ◌≤◌, ◌<◌, ◌≡◌, refl, sym, ap, ◌≢◌, ◌∙◌, ◌⊎◌, inl, inr, true,
  some, List, [], ◌∷◌, ◌++◌, arith, length, get_or, length-append, append_assoc, append-nil,
  Option-cases,
}
use native.Mathlib.Decide.{ℕ_discrete, dec_lt}
use mcdma.Wire.{region_max}
use mcdma.Verbs.{Mr, Region, Registrar, no_mr, u64, link_mrs, reg_len, reg_access, ep_reg, reg_loop}

get_or-append_lt {ℓ} :
    {A : Type ℓ} (xs ys : List A) (i : ℕ) (d : A)
    → i < length xs
    → get_or (xs ++ ys) i d ≡ get_or xs i d
get_or-append_lt [] ys i d h = absurd (omega arith)
get_or-append_lt (x ∷ xs) ys zero d h = refl
get_or-append_lt (x ∷ xs) ys (suc i) d h = get_or-append_lt xs ys i d (omega arith)

get_or-append_at {ℓ} :
    {A : Type ℓ} (xs : List A) (y : A) (i : ℕ) (d : A)
    → i ≡ length xs
    → get_or (xs ++ (y ∷ [])) i d ≡ y
get_or-append_at [] y zero d h = refl
get_or-append_at [] y (suc i) d h = absurd (omega arith)
get_or-append_at (x ∷ xs) y zero d h = absurd (omega arith)
get_or-append_at (x ∷ xs) y (suc i) d h = get_or-append_at xs y i d (omega arith)

-- What `ibv_reg_mr` gave for registration `i`: its own piece of the region, with the access of its side.
abbrev pub IsRegistered : Registrar → Region → ℕ → Type 0
IsRegistered reg r i =
    reg (u64 (r.base + i * r.seg)) (reg_len r (i * r.seg)) (reg_access r (i * r.seg))
    ≡ some (get_or r.mr i no_mr)

-- The registrations so far, each the next `seg` bytes, none past the end.
pub record SoFar (reg : Registrar) (r : Region) : Type 0 where
  pub count : length r.mr ≡ r.n
  pub few : r.n ≤ region_max
  pub needed : (r.n ≡ 0) ⊎ ((r.n - 1) * r.seg < r.len)
  pub each : (i : ℕ) → i < r.n → IsRegistered reg r i

-- the region after one more registration
abbrev pub grown : Region → Mr → Region
grown r mr = record r { mr = r.mr ++ (mr ∷ []); n = r.n + 1 }

ep_reg_inv :
    (reg : Registrar) (held : List Mr) (a l x : ℕ) (mr : Mr) (held' : List Mr)
    → ep_reg reg held a l x ≡ some (mr, held')
    → (reg a l x ≡ some mr) × (held' ≡ held ++ (mr ∷ [])) × (length held < link_mrs)
unfolding ep_reg
ep_reg_inv reg held a l x mr held' e = ground arith

grown-SoFar :
    (reg : Registrar) (r : Region) (mr : Mr)
    → SoFar reg r
    → r.n < region_max
    → r.n * r.seg < r.len
    → reg (u64 (r.base + r.n * r.seg)) (reg_len r (r.n * r.seg)) (reg_access r (r.n * r.seg))
      ≡ some mr
    → SoFar reg (grown r mr)
grown-SoFar reg r mr v room inside e = record {
  count = omega (arith, length-append {0} r.mr (mr ∷ []), v.count);
  few = omega arith;
  needed = inr (less inside);
  each = λ i h. elim (ℕ_discrete i r.n) [
    | yes last ↦ rw (last, get_or-append_at r.mr mr r.n no_mr (omega (arith, v.count))) e
    | no old ↦
        rw (get_or-append_lt r.mr (mr ∷ []) i no_mr (omega (arith, v.count)))
          (v.each i (omega arith))
  ];
}
  where
    less : r.n * r.seg < r.len → (r.n + 1 - 1) * r.seg < r.len
    less h = grind arith

-- What a region that `ep_reg_region` accepted is: `n` registrations, at most 128 and no more than
-- needed, that cover it, each made by `ibv_reg_mr` for its own part.
pub record Covered (reg : Registrar) (r : Region) : Type 0 where
  pub count : length r.mr ≡ r.n
  pub few : r.n ≤ region_max
  pub needed : (r.n ≡ 0) ⊎ ((r.n - 1) * r.seg < r.len)
  pub each : (i : ℕ) → i < r.n → IsRegistered reg r i
  pub whole : r.len ≤ r.n * r.seg

-- the fields that the loop leaves alone
abbrev pub SameShape : Region → Region → Type 0
SameShape r r' =
    (r'.base ≡ r.base)
    × (r'.len ≡ r.len)
    × (r'.seg ≡ r.seg)
    × (r'.split ≡ r.split)
    × (r'.below ≡ r.below)
    × (r'.above ≡ r.above)

-- One round of the loop that ends well: the end was reached, or one more registration was made.
reg_loop-suc :
    (reg : Registrar) (fuel off : ℕ) (r : Region) (held : List Mr) (r' : Region) (held' : List Mr)
    → reg_loop reg (suc fuel) off r held ≡ (true, r', held')
    → ((r.len ≤ off) × (r' ≡ r) × (held' ≡ held))
      ⊎ ((mr : Mr) × (held1 : List Mr) × (off < r.len)
          × (r.n ≢ region_max)
          × (ep_reg reg held (u64 (r.base + off)) (reg_len r off) (reg_access r off)
              ≡ some (mr, held1))
          × (reg_loop reg fuel (u64 (off + r.seg)) (grown r mr) held1 ≡ (true, r', held')))
unfolding reg_loop
reg_loop-suc reg fuel off r held r' held' e = elim (dec_lt off r.len) [
  | no past ↦ inl (ground (arith, past), ground (arith, past), ground (arith, past))
  | yes more ↦
      elim (Option-cases
        (ep_reg reg held (u64 (r.base + off)) (reg_len r off) (reg_access r off))) [
          | inl refused ↦ absurd (ground (arith, more, refused))
          | inr ((mr, held1), made) ↦
              inr (mr, held1, more, ground (arith, more), made, ground (arith, more, made))
        ]
]

-- What the loop added, the same to the region and to the endpoint's registrations.
pub record Added (r r' : Region) (held held' : List Mr) : Type 0 where
  pub new : List Mr
  pub to_region : r'.mr ≡ r.mr ++ new
  pub to_endpoint : held' ≡ held ++ new

pub reg_loop-Covered :
    (reg : Registrar) (fuel off : ℕ) (r : Region) (held : List Mr) (r' : Region) (held' : List Mr)
    → off ≡ r.n * r.seg
    → r.len + r.seg < 2 ^ 64
    → SoFar reg r
    → reg_loop reg fuel off r held ≡ (true, r', held')
    → Covered reg r' × SameShape r r' × Added r r' held held'
reg_loop-Covered reg zero off r held r' held' eo w v e = absurd (unfold reg_loop in cc)
reg_loop-Covered reg (suc fuel) off r held r' held' eo w v e =
    elim (reg_loop-suc reg fuel off r held r' held' e) [
      | inl (past, same, same_held) ↦
          rw (same, same_held)
            (
              record {
                count = v.count;
                few = v.few;
                needed = v.needed;
                each = v.each;
                whole = omega arith;
              },
              (refl, refl, refl, refl, refl, refl),
              record {
                new = [];
                to_region = sym (append-nil r.mr);
                to_endpoint = sym (append-nil held);
              },
            )
      | inr (mr, held1, more, room, made, rest) ↦
          let (given, longer, free) = ep_reg_inv reg held _ _ _ mr held1 made in
          let next : u64 (off + r.seg) ≡ (r.n + 1) * r.seg = omega arith in
          let v1 = grown-SoFar reg r mr v (omega (arith, v.few)) (omega arith) (rw eo at given) in
          let (cov, (b, l, s, p, lo, hi), add) =
            reg_loop-Covered reg fuel (u64 (off + r.seg)) (grown r mr) held1 r' held' next w v1
              rest in
          (
            cov,
            (b, l, s, p, lo, hi),
            record {
              new = mr ∷ add.new;
              to_region = add.to_region ∙ append_assoc r.mr (mr ∷ []) add.new;
              to_endpoint =
                  add.to_endpoint
                  ∙ ap (λ (h : List Mr). h ++ add.new) longer
                  ∙ append_assoc held (mr ∷ []) add.new;
            },
          )
    ]
