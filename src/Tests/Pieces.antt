-- ===== src/Tests/Pieces.antt =====
-- Registrations and cut transfers of rpc/link_verbs.c at concrete inputs.
use mcdma.Prelude.{◌+◌, ◌≤◌, ◌<◌, ◌≡◌, refl, true, some, List, [], ◌∷◌, arith, length, replicate}
use mcdma.Wire.{Table, roce}
use mcdma.Verbs.{
  Mr, Region, Piece, Registrar, region_lkey, room_at, cut, ep_reg, reg_loop, ep_reg_region,
}
use mcdma.Verbs.Cut.{Covers, full_pieces, cut-Covers, cut_total}
use mcdma.Verbs.Register.{IsRegion, Grants, ep_reg_region-Covered, ep_reg_region_total}

-- two registrations of 8 bytes each
abbrev halves : Region
halves = record {
  base = 1000;
  len = 16;
  seg = 8;
  split = 8;
  n = 2;
  below = 1;
  above = 7;
  mr = record { lkey = 4; rkey = 5 } ∷ record { lkey = 6; rkey = 7 } ∷ [];
}

abbrev remote : Table
remote = record { base = 5000; len = 12; seg = 6; n = 2; rkey = 31 ∷ 32 ∷ replicate 126 0 }

-- 10 bytes from 4 on, to 1 on: up to 8 locally, up to 6 remotely, then the rest
abbrev pieces : List Piece
pieces =
    record { local = 1004; lkey = 4; remote = 5001; rkey = 31; len = 4 }
    ∷ record { local = 1008; lkey = 6; remote = 5005; rkey = 31; len = 1 }
    ∷ record { local = 1009; lkey = 6; remote = 5006; rkey = 32; len = 5 }
    ∷ []

cut-pieces : cut halves (some remote) 100 8 4 1 10 ≡ some pieces
unfolding cut room_at region_lkey
cut-pieces = refl

cut-Covers_example : Covers halves (some remote) 100 4 1 10 pieces × (length pieces ≤ 8)
cut-Covers_example =
    cut-Covers halves (some remote) 100 (omega arith) (omega arith) (omega arith) (omega arith) 8 4
      1 10 pieces (omega arith) (omega arith) cut-pieces

full_of : full_pieces halves (some remote) 100 4 1 10 < 8
full_of = omega arith

cut_total_example : (ps : List Piece) × (cut halves (some remote) 100 8 4 1 10 ≡ some ps)
cut_total_example =
    cut_total halves (some remote) 100 (omega arith) (omega arith) (omega arith) 8 4 1 10 full_of
      (omega arith) (omega arith)

-- a verbs library whose keys tell the address
abbrev granting : Registrar
granting addr len access = some (record { lkey = addr; rkey = addr + 1 })

granting-Grants : Grants granting
granting-Grants addr len access = (record { lkey = addr; rkey = addr + 1 }, refl)

abbrev registered : Region
registered = record {
  base = 1000;
  len = 12;
  seg = 8;
  split = 8;
  n = 2;
  below = 1;
  above = 7;
  mr = record { lkey = 1000; rkey = 1001 } ∷ record { lkey = 1008; rkey = 1009 } ∷ [];
}

register_twelve : ep_reg_region granting roce [] 1000 12 8 8 1 7 ≡ (true, registered, registered.mr)
unfolding ep_reg_region reg_loop ep_reg
register_twelve = refl

ep_reg_region-Covered_example : IsRegion granting roce [] 1000 12 8 8 1 7 registered registered.mr
ep_reg_region-Covered_example =
    ep_reg_region-Covered granting roce [] 1000 12 8 8 1 7 registered registered.mr (omega arith)
      register_twelve

ep_reg_region_total_example :
    (r : Region) × (held : List Mr) × (ep_reg_region granting roce [] 1000 12 8 8 1 7
      ≡ (true, r, held))
ep_reg_region_total_example =
    ep_reg_region_total granting roce [] 1000 12 8 8 1 7 granting-Grants (omega arith) (omega arith)
      (omega arith) (omega arith)
