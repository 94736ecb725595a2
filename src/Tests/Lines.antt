-- ===== src/Tests/Lines.antt =====
-- Lines of a control socket whose bytes come in pieces.
use mcdma.Prelude.{ℕ, List, [], ◌∷◌, ◌≡◌, false, refl, map, arith}
use mcdma.Daemon.Lines.{got, line, split_line, take_line, newline}
use mcdma.Daemon.Lines.Framing.{Takes, take_line-Takes}

-- "MODE poll", a newline and the start of the next line, in two pieces
abbrev pieces : List (List ℕ)
pieces = (68 ∷ 69 ∷ 32 ∷ []) ∷ (112 ∷ 111 ∷ 108 ∷ 108 ∷ newline ∷ 83 ∷ []) ∷ []

abbrev command : List ℕ
command = 77 ∷ 79 ∷ 68 ∷ 69 ∷ 32 ∷ 112 ∷ 111 ∷ 108 ∷ 108 ∷ []

run_pieces :
    take_line 16384 32768 false false (map got pieces) (77 ∷ 79 ∷ []) ≡ (line command, 83 ∷ [], [])
unfolding take_line split_line
run_pieces = refl

take_line-Takes_example : Takes 16384 32768 false false pieces (77 ∷ 79 ∷ []) command (83 ∷ [])
take_line-Takes_example =
    take_line-Takes 16384 32768 false false pieces (77 ∷ 79 ∷ []) command (83 ∷ []) (omega arith)
      (omega arith)
      (
        (λ e. omega arith),
        (
          (λ e. omega arith),
          (
            (λ e. omega arith),
            (
              (λ e. omega arith),
              (
                (λ e. omega arith),
                (
                  (λ e. omega arith),
                  ((λ e. omega arith), ((λ e. omega arith), ((λ e. omega arith), tt))),
                ),
              ),
            ),
          ),
        ),
      )
      (omega arith, (omega arith, tt)) refl
