-- ===== src/Daemon/Lines.antt =====
-- rpc/rpcd_common.c: the control socket's lines, and the names and sizes on the command line. What `recv` answers, call
-- by call, is an argument.
use mcdma.Prelude.{
  ℕ, ◌*◌, ◌%◌, ◌^◌, Bool, true, false, not, ◌&&◌, ◌||◌, Option, none, some, List, [], ◌∷◌, ◌++◌,
  leb, ltb, ◌==◌, if◌then◌else◌, length,
}
use mcdma.Daemon.Transfer.{max_segs}
pub mod Framing
pub mod Sizes

abbrev pub newline : ℕ
newline = 10

-- `memchr` for a newline: what stands before it and after it
unfoldable pub split_line : List ℕ → Option (List ℕ × List ℕ)
split_line [] = none
split_line (c ∷ cs) =
    if c == newline
    then some ([], cs)
    else elim (split_line cs) [ none ↦ none | some cut ↦ some (c ∷ cut.0, cut.1) ]

-- An answer of `recv`: bytes, none of them at the end of the stream, EINTR, EAGAIN, or another error.
pub data Arrival : Type 0 where
  got : List ℕ → Arrival
  interrupted not_yet broken : Arrival

-- What `take_line` returns: 1 with the line, 0 or -1; or it waits in `recv`.
pub data Outcome : Type 0 where
  line : List ℕ → Outcome
  nothing failed waits : Outcome

-- the buffer before a `recv`: a line, no room left, or what comes next
abbrev pub at_buffer :
    ℕ
    → ℕ
    → List ℕ
    → List Arrival
    → Outcome × List ℕ × List Arrival
    → Outcome × List ℕ × List Arrival
at_buffer n size buf arrivals next = elim (split_line buf) [
  | some cut ↦
      if leb n (length cut.0) then (failed, buf, arrivals) else (line cut.0, cut.1, arrivals)
  | none ↦ if length buf == size then (failed, buf, arrivals) else next
]

-- `take_line` into `n` bytes from a buffer of `size`, by recursion on the answers; `stop` is `g_stop`.
unfoldable pub take_line :
    ℕ → ℕ → Bool → Bool → List Arrival → List ℕ → Outcome × List ℕ × List Arrival
take_line n size block stop [] buf = at_buffer n size buf [] (waits, buf, [])
take_line n size block stop (got [] ∷ as') buf =
    at_buffer n size buf (got [] ∷ as') (failed, buf, as')
take_line n size block stop (got (c ∷ cs) ∷ as') buf =
    at_buffer n size buf (got (c ∷ cs) ∷ as') (take_line n size block stop as' (buf ++ c ∷ cs))
take_line n size block stop (interrupted ∷ as') buf =
    at_buffer n size buf (interrupted ∷ as')
      (if stop then (failed, buf, as') else take_line n size block stop as' buf)
take_line n size block stop (not_yet ∷ as') buf =
    at_buffer n size buf (not_yet ∷ as') (if block then failed else nothing, buf, as')
take_line n size block stop (broken ∷ as') buf =
    at_buffer n size buf (broken ∷ as') (failed, buf, as')

-- a character of a link's name
abbrev pub name_char : ℕ → Bool
name_char c =
    leb 65 c && leb c 90 || leb 97 c && leb c 122 || leb 48 c && leb c 57 || c == 95 || c == 45

unfoldable pub name_chars : List ℕ → Bool
name_chars [] = true
name_chars (c ∷ cs) = name_char c && name_chars cs

-- `valid_name`
unfoldable pub valid_name : List ℕ → Bool
valid_name name = leb 1 (length name) && leb (length name) 20 && name_chars name

-- `parse_mib`
unfoldable pub parse_mib : ℕ → Option ℕ
parse_mib mib =
    if mib == 0 || not (mib % 4 == 0) || ltb (4 * max_segs) mib then none else some (mib * 2 ^ 20)
