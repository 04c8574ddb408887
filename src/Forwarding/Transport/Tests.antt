-- ===== src/Forwarding/Transport/Tests.antt =====
-- Lines of /proc/net/tcp, and the theorems at them.
use Prim.Native.Char.{code}
use Prim.Native.String.{String}
use kertical.Prelude.{ℕ, ◌≡◌, ◌≢◌, ◌↔◌, ◌⊎◌, refl, true, false, none, some, List, [], ◌∷◌, arith}
use kertical.Forwarding.Types.{tcp, udp, other}
use kertical.Forwarding.Transport.{
  Answer, listening, free, crashed, Proc, File, state_matches, line_matches, parse_and_check,
  is_listening,
}
use kertical.Forwarding.Transport.Listening.{IsFreeIn, is_listening-free, listening_states}

abbrev codes : String → List ℕ
codes String.[] = []
codes (String.◌∷◌ c s) = code c ∷ codes s

abbrev header : List ℕ
header = codes "sl local_address rem_address st tx_queue"

abbrev listener : List ℕ
listener = codes " 0: 00000000:1F90 00000000:0000 0A 00000000"

abbrev closing : List ℕ
closing = codes " 0: 0100007F:1F90 0100007F:8000 0B 00000000"

abbrev whole : List (List ℕ) → File
whole lines = record { lines = lines; cut_short = false }

program : Unit {0}
unfolding line_matches parse_and_check is_listening kertical.Forwarding.Transport.scan_line
program = tt

finds_listener : parse_and_check (whole (header ∷ listener ∷ [])) 8080 10 ≡ some true
unfolding program
finds_listener = refl

finds_closing : parse_and_check (whole (header ∷ closing ∷ [])) 8080 10 ≡ some true
unfolding program
finds_closing = refl

empty_line_panics : parse_and_check (whole ([] ∷ [])) 8080 10 ≡ none
unfolding program
empty_line_panics = refl

abbrev proc : Proc
proc filename = some (whole (header ∷ []))

-- The line of the listener is not reached.
unread : parse_and_check (record { lines = header ∷ []; cut_short = true }) 8080 10 ≡ some false
unfolding program
unread = refl

is_listening-free_example :
    ((is_listening proc tcp 8080 ≡ free)
      ↔ (IsFreeIn proc "/proc/net/tcp" 8080 10 × IsFreeIn proc "/proc/net/tcp6" 8080 10))
    × ((is_listening proc udp 8080 ≡ free)
        ↔ (IsFreeIn proc "/proc/net/udp" 8080 7 × IsFreeIn proc "/proc/net/udp6" 8080 7))
    × ((name : String) → is_listening proc (other name) 8080 ≢ free)
is_listening-free_example = is_listening-free proc 8080

listening_states_example :
    (state_matches (some 8080) (some 11) 8080 10 ≡ true)
    ↔ ((◌≡◌ {A = ℕ} 11 10) ⊎ (◌≡◌ {A = ℕ} 11 11))
listening_states_example = listening_states 8080 11 (omega arith)
