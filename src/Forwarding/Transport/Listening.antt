-- ===== src/Forwarding/Transport/Listening.antt =====
-- When a port counts as free, and which states of a socket count as listening.
use Prim.Native.Nat.{bit_and}
use kertical.Prelude.{
  ℕ, ◌≤◌, String, Bool, true, false, ◌≡◌, ◌↔◌, ◌⊎◌, ◌≢◌, ==_refl, nat_Eq, ◌==◌, not, ◌||◌,
  passes_below, passes_at, refl, Option, none, some, List, [], ◌∷◌, All, arith,
}
use kertical.Forwarding.Types.{tcp, udp, other}
use kertical.Forwarding.Transport.{
  Answer, free, Proc, line_matches, File, scan_lines, parse_and_check, is_listening_in,
  is_listening, or_else, state_matches, scan_line, answer, check_file, uint8,
}

-- Every line can be taken apart, and none is of a socket that listens on the port.
abbrev pub NoneMatches : List (List ℕ) → ℕ → ℕ → Type 0
NoneMatches lines port mask = All (λ line. line_matches line port mask ≡ some false) lines

scan_line_iff :
    (found rest : Option Bool)
    → (scan_line found rest ≡ some false) ↔ ((found ≡ some false) × (rest ≡ some false))
unfolding scan_line
scan_line_iff none rest = ((λ h. cc), (λ h. cc))
scan_line_iff (some true) rest = ((λ h. cc), (λ h. cc))
scan_line_iff (some false) rest = ((λ h. (refl, h)), (λ h. h.1))

scan_lines_iff :
    (lines : List (List ℕ)) (port mask : ℕ)
    → (scan_lines lines port mask ≡ some false) ↔ NoneMatches lines port mask
unfolding scan_lines
scan_lines_iff [] port mask = ((λ h. tt), (λ h. refl))
scan_lines_iff (line ∷ lines) port mask =
    let first = scan_line_iff (line_matches line port mask) (scan_lines lines port mask) in
    let rest = scan_lines_iff lines port mask in
    ((λ h. ((first.0 h).0, rest.0 (first.0 h).1)), (λ h. first.1 (h.0, rest.1 h.1)))

-- The file can be opened, and no line that the scanner gives of it matches; the scanner may have been
-- cut short.
pub record IsFreeIn (proc : Proc) (filename : String) (port mask : ℕ) : Type 0 where
  pub file : File
  pub opened : proc filename ≡ some file
  pub unmatched : NoneMatches file.lines port mask

answer-free : (found : Option Bool) → answer found ≡ free → found ≡ some false
unfolding answer
answer-free none h = cc
answer-free (some true) h = cc
answer-free (some false) h = refl

is_listening_in_iff :
    (proc : Proc) (filename : String) (port mask : ℕ)
    → (is_listening_in proc filename port mask ≡ free) ↔ IsFreeIn proc filename port mask
unfolding is_listening_in answer parse_and_check
is_listening_in_iff proc filename port mask = (
  (λ h. go (proc filename) refl h),
  (λ f. rw f.opened (rw ((scan_lines_iff f.file.lines port mask).1 f.unmatched))),
)
  where
    go :
        (file : Option File)
        → proc filename ≡ file
        → check_file file port mask ≡ free
        → IsFreeIn proc filename port mask
    go none e h = absurd (cc)
    go (some file) e h = record {
      file = file;
      opened = e;
      unmatched =
          (scan_lines_iff file.lines port mask).0 (answer-free (scan_lines file.lines port mask) h);
    }

or_else-free :
    (first second : Answer) → (or_else first second ≡ free) ↔ ((first ≡ free) × (second ≡ free))
unfolding or_else
or_else-free free second = ((λ h. (refl, h)), (λ h. h.1))
or_else-free first second = ((λ h. cc), (λ h. cc))

-- A port is free exactly if both files of its protocol can be opened, and of each every line that the
-- scanner gives can be taken apart and does not match, also where the scanner stopped before the end of the
-- file; for another protocol it never is.
pub is_listening-free :
    (proc : Proc) (port : ℕ)
    → ((is_listening proc tcp port ≡ free)
        ↔ (IsFreeIn proc "/proc/net/tcp" port 10 × IsFreeIn proc "/proc/net/tcp6" port 10))
      × ((is_listening proc udp port ≡ free)
          ↔ (IsFreeIn proc "/proc/net/udp" port 7 × IsFreeIn proc "/proc/net/udp6" port 7))
      × ((name : String) → is_listening proc (other name) port ≢ free)
unfolding is_listening
is_listening-free proc port = (
  both "/proc/net/tcp" "/proc/net/tcp6" 10,
  both "/proc/net/udp" "/proc/net/udp6" 7,
  (λ name h. cc),
)
  where
    both :
        (f g : String) (mask : ℕ)
        → (or_else (is_listening_in proc f port mask) (is_listening_in proc g port mask) ≡ free)
          ↔ (IsFreeIn proc f port mask × IsFreeIn proc g port mask)
    both f g mask =
        let either =
          or_else-free (is_listening_in proc f port mask) (is_listening_in proc g port mask) in
        let left = is_listening_in_iff proc f port mask in
        let right = is_listening_in_iff proc g port mask in
        (
          (λ h. (left.0 (either.0 h).0, right.0 (either.0 h).1)),
          (λ h. either.1 (left.1 h.0, right.1 h.1)),
        )

-- The mask's test against the two states, for each of the kernel's states.
xnor : Bool → Bool → Bool
xnor true b = b
xnor false b = not b

states_agree : ℕ → Bool
states_agree s = xnor (bit_and (uint8 s) 10 == 10) (s == 10 || s == 11)

states_table : passes_below 13 states_agree ≡ true
unfolding passes_below states_agree xnor
states_table = refl

-- Of the kernel's states, numbered 1 to 12, the mask 10 lets through the state of a listening socket,
-- 10, and that of a socket which is closing on both sides, 11.
pub listening_states :
    (port state : ℕ)
    → state ≤ 12
    → (state_matches (some port) (some state) port 10 ≡ true) ↔ ((state ≡ 10) ⊎ (state ≡ 11))
unfolding state_matches states_agree xnor
listening_states port state h =
    let agree = passes_at 13 states_agree state states_table (omega arith) in
    ((λ e. ground (arith, agree, ==_refl port)), (λ e. ground (arith, agree, ==_refl port)))
