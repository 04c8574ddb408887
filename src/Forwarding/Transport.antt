-- ===== src/Forwarding/Transport.antt =====
-- internal/portforwarding/transport: whether a program of the host listens on a port, read from
-- /proc. A line is the list of its bytes; an index out of range panics: `none`.
pub mod Listening
mod Tests
use Prim.Native.Nat.{bit_and}
use kertical.Prelude.{
  ℕ, zero, suc, ◌+◌, ◌-◌, ◌*◌, ◌%◌, String, Bool, true, false, ◌&&◌, ◌||◌, Option, none, some, List,
  [], ◌∷◌, ltb, leb, ◌==◌, nat_Eq, if◌then◌else◌, get_elem?, filter, length, not,
}
use kertical.Forwarding.Types.{Protocol, tcp, udp, other}

-- strings.Split at a one-byte separator: the pieces between the separators.
unfoldable pub split : ℕ → List ℕ → List (List ℕ)
split sep [] = [] ∷ []
split sep (c ∷ cs) = elim (split sep cs) [
  | [] ↦ []
  | piece ∷ pieces ↦ if c == sep then [] ∷ piece ∷ pieces else (c ∷ piece) ∷ pieces
]

-- The white space of ASCII becomes the space, at which `strings.Fields` parts.
abbrev blank : ℕ → ℕ
blank c = if c == b' ' || (leb 9 c && leb c 13) then b' ' else c

blanked : List ℕ → List ℕ
blanked [] = []
blanked (c ∷ cs) = blank c ∷ blanked cs

abbrev is_empty : List ℕ → Bool
is_empty [] = true
is_empty (c ∷ cs) = false

-- strings.Fields
unfoldable pub fields : List ℕ → List (List ℕ)
unfolding split blanked
fields line = filter (λ piece. not (is_empty piece)) (split b' ' (blanked line))

hex_digit : ℕ → Option ℕ
hex_digit c =
    if leb b'0' c && leb c b'9'
    then some (c - b'0')
    else if leb b'a' c && leb c b'f'
    then some (c - b'a' + 10)
    else if leb b'A' c && leb c b'F'
    then some (c - b'A' + 10)
    else none

-- The digits of strconv.ParseUint(s, 16, 64): a value past 64 bits is an error.
hex_value : ℕ → List ℕ → Option ℕ
hex_value acc [] = some acc
hex_value acc (c ∷ cs) = elim (hex_digit c) [
  | none ↦ none
  | some d ↦ let n = acc * 16 + d in if ltb n 18446744073709551616 then hex_value n cs else none
]

unfoldable pub parse_hex : List ℕ → Option ℕ
unfolding hex_value hex_digit
parse_hex [] = none
parse_hex (c ∷ cs) = hex_value 0 (c ∷ cs)

abbrev uint8 : ℕ → ℕ
uint8 n = n % 256

-- The two nested `if err == nil` of the loop's body.
unfoldable pub state_matches : Option ℕ → Option ℕ → (port mask : ℕ) → Bool
state_matches (some local_port) (some state) port mask =
    local_port == port && bit_and (uint8 state) mask == mask
state_matches _ _ port mask = false

-- One line: `none` is the panic of `fields[1]` or of `fields[3]`, which is read only if the local
-- port is a number.
line_fields : List (List ℕ) → (port mask : ℕ) → Option Bool
unfolding split parse_hex state_matches
line_fields (_ ∷ local ∷ rest) port mask = elim (split b':' local) [
  | addr ∷ local_port ∷ [] ↦ elim (parse_hex local_port) [
    | none ↦ some false
    | some p ↦ elim (get_elem? rest 1) [
      | none ↦ none
      | some state ↦ some (state_matches (some p) (parse_hex state) port mask)
    ]
  ]
  | _ ↦ some false
]
line_fields _ port mask = none

unfoldable pub line_matches : List ℕ → (port mask : ℕ) → Option Bool
unfolding line_fields fields
line_matches line port mask = line_fields (fields line) port mask

-- A panic and a match end the loop.
unfoldable pub scan_line : Option Bool → Option Bool → Option Bool
scan_line none rest = none
scan_line (some true) rest = some true
scan_line (some false) rest = rest

-- What a bufio.Scanner gives of a file: the lines that `Scan` stops at, and whether it has stopped
-- before the end of the file, at an error of reading or at a line that is too long (`Err`).
pub record File : Type 0 where
  pub lines : List (List ℕ)
  pub cut_short : Bool

unfoldable pub scan_lines : List (List ℕ) → (port mask : ℕ) → Option Bool
scan_lines [] port mask = some false
scan_lines (line ∷ lines) port mask =
    scan_line (line_matches line port mask) (scan_lines lines port mask)

-- `Err` of the scanner is not asked.
unfoldable pub parse_and_check : File → (port mask : ℕ) → Option Bool
unfolding scan_lines
parse_and_check file port mask = scan_lines file.lines port mask

-- What `isListening` and its callers return.
pub data Answer : Type 0 where
  listening free failed crashed : Answer

-- The files of /proc; `none` is an error of `os.Open`.
abbrev pub Proc : Type 0
Proc = String → Option File

unfoldable pub answer : Option Bool → Answer
answer none = crashed
answer (some true) = listening
answer (some false) = free

unfoldable pub check_file : Option File → (port mask : ℕ) → Answer
check_file none port mask = failed
check_file (some file) port mask = answer (parse_and_check file port mask)

unfoldable pub is_listening_in : Proc → String → (port mask : ℕ) → Answer
unfolding check_file
is_listening_in proc filename port mask = check_file (proc filename) port mask

or_else : Answer → Answer → Answer
or_else free second = second
or_else first second = first

-- unix.BPF_TCP_LISTEN is 10, the kernel's TCP_LISTEN; `UdpConn` is 7.
unfoldable pub is_listening : Proc → Protocol → ℕ → Answer
unfolding is_listening_in or_else
is_listening proc tcp port =
    or_else (is_listening_in proc "/proc/net/tcp" port 10)
      (is_listening_in proc "/proc/net/tcp6" port 10)
is_listening proc udp port =
    or_else (is_listening_in proc "/proc/net/udp" port 7)
      (is_listening_in proc "/proc/net/udp6" port 7)
is_listening proc (other p) port = failed
