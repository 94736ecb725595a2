-- ===== src/Core/Entries/Encoders.antt =====
-- The kernel's encoder of send entries beside that of userspace: their parts.
use mcdma.Prelude.{
  ℕ, zero, suc, ◌+◌, ◌-◌, ◌^◌, ◌≡◌, inl, inr, refl, ap, ◌∙◌, arith, Bool, true, false, ◌||◌, Option,
  none, some, List, [], ◌∷◌, ltb, ◌==◌, ◌!=◌, if◌then◌else◌, Bool-cases, Option-cases,
}
use mcdma.UserPost.{Request, Sge}
use mcdma.UserPost as User
use mcdma.Core.Entries.{
  rdma_opcode, scatter_total, total_of, request_bytes, units, scatter_entries, data_bytes, written,
}

abbrev added : ℕ → Option ℕ → Option ℕ
added total none = none
added total (some t) = some (total + t)

added_none : (o : Option ℕ) → added 0 o ≡ o
added_none none = refl
added_none (some t) = ap some (omega arith)

scatter_total-added :
    (n : ℕ) (ss : List Sge) (total : ℕ)
    → scatter_total n ss total ≡ added total (User.sge_total n ss)
unfolding scatter_total User.sge_total
scatter_total-added zero ss total = ap some (omega arith)
scatter_total-added (suc n) [] total = refl
scatter_total-added (suc n) (s ∷ ss) total =
    elim (Bool-cases (s.len == 0 || s.lkey == 0 || ltb (2 ^ 64 - 1 - s.len) s.address)) [
      | inl bad ↦ rw (bad) refl
      | inr good ↦
          rw (good)
            (scatter_total-added n ss (total + s.len) ∙ more s.len (User.sge_total n ss) total)
    ]
  where
    more :
        (l : ℕ) (o : Option ℕ) (total : ℕ)
        → added (total + l) o ≡ added total (elim o [ none ↦ none | some t ↦ some (l + t) ])
    more l none total = refl
    more l (some t) total = ap some (omega arith)

inline_tests :
    (a b : Bool) (n most : ℕ)
    → (if false || a || b then none else if ltb n 1 || ltb most n then none else some n)
      ≡ (if a || b || n == 0 || ltb most n then none else some n)
inline_tests true b n most = refl
inline_tests false true n most = refl
inline_tests false false n most = ground arith

scatter_tests :
    (i n most : ℕ) {x y : Option ℕ}
    → x ≡ y
    → (if i != 0 then none else if ltb n 1 || ltb most n then none else x)
      ≡ (if i != 0 || n == 0 || ltb most n then none else y)
scatter_tests i n most e = ground (arith, e)

total_of-payload_bytes : (r : Request) → total_of r ≡ User.payload_bytes r
unfolding total_of User.payload_bytes
total_of-payload_bytes r = elim (Option-cases r.inline_data) [
  | inl nothing ↦
      let same : scatter_total r.sge_count r.sge 0 ≡ User.sge_total r.sge_count r.sge =
        scatter_total-added r.sge_count r.sge 0 ∙ added_none (User.sge_total r.sge_count r.sge) in
      rw (nothing)
        (scatter_tests r.inline_bytes r.sge_count (if rdma_opcode r.opcode then 2 else 3) same)
  | inr (bytes, there) ↦ rw (there) (
      inline_tests (r.sge_count != 0) (r.opcode == User.wqe_read) r.inline_bytes
        (if rdma_opcode r.opcode then 28 else 44))
]

pub request_bytes-user : (r : Request) → request_bytes r ≡ User.request_bytes r
unfolding request_bytes User.request_bytes
request_bytes-user r = rw (total_of-payload_bytes r) refl

scatter_entries-sge_part : (n : ℕ) (ss : List Sge) → scatter_entries n ss ≡ User.sge_part n ss
unfolding scatter_entries User.sge_part
scatter_entries-sge_part zero ss = refl
scatter_entries-sge_part (suc n) [] = refl
scatter_entries-sge_part (suc n) (s ∷ ss) = rw (scatter_entries-sge_part n ss) refl

pub units-units_of : (r : Request) → units r ≡ User.units_of r
units-units_of r = elim (Option-cases r.inline_data) [
  | inl nothing ↦ rw (nothing) refl
  | inr (bytes, there) ↦ rw (there) refl
]

data_bytes-data_part : (r : Request) → data_bytes r ≡ User.data_part r
data_bytes-data_part r = elim (Option-cases r.inline_data) [
  | inl nothing ↦ rw (nothing) (scatter_entries-sge_part r.sge_count r.sge)
  | inr (bytes, there) ↦ rw (there) refl
]

pub written-entry_of :
    (qpn producer : ℕ) (r : Request) → written qpn producer r ≡ User.entry_of qpn producer r
unfolding written User.entry_of
written-entry_of qpn producer r = rw (units-units_of r, data_bytes-data_part r) refl
