-- ===== src/Nftables/Userdata/Roundtrip.antt =====
-- Reading back what `marshal` wrote, and the data on which `unmarshal` panics.
use kertical.Prelude.{
  ℕ, ◌+◌, ◌-◌, ◌*◌, ◌/◌, ◌%◌, ◌≤◌, ◌<◌, ◌≡◌, ◌↔◌, ◌⊎◌, none, some, List, [], ◌∷◌, ◌++◌, arith,
  length, take, take-append, length-append,
}
use kertical.Nftables.Userdata.{uint16, marshal, unmarshal}

-- The header that `marshal` writes is read as the number that was written.
header_read : (n : ℕ) → n < 65536 → uint16 n / 256 * 256 + uint16 n % 256 ≡ n
header_read n h = omega arith

-- What `1+sz` leaves of the buffer behind the header.
take-body :
    (xs : List ℕ) → length xs < 65534 → take (uint16 (1 + (length xs + 1)) - 2) (xs ++ 0 ∷ []) ≡ xs
take-body xs h =
    let n : uint16 (1 + (length xs + 1)) - 2 ≡ length xs = omega arith in
    rw n (take-append xs (0 ∷ []))

-- A comment of fewer than 65534 bytes is read back as it was written.
pub unmarshal-marshal :
    (comment : List ℕ) → length comment < 65534 → unmarshal (marshal comment) ≡ some comment
unfolding marshal unmarshal
unmarshal-marshal [] h = ground arith
unmarshal-marshal (c ∷ cs) h =
    rw (header_read (length (c ∷ cs) + 1) (omega arith))
      (ground (arith, take-body (c ∷ cs) h, length-append cs (0 ∷ [])))

-- The user data on which `unmarshal` panics: a size of 0 or of 65535, with enough bytes behind it.
pub unmarshal-panics :
    (hi lo : ℕ) (body : List ℕ)
    → hi < 256
    → lo < 256
    → (unmarshal (hi ∷ lo ∷ body) ≡ none)
      ↔ ((hi * 256 + lo ≤ length body) × ((hi * 256 + lo ≡ 0) ⊎ (hi * 256 + lo ≡ 65535)))
unfolding unmarshal
unmarshal-panics hi lo body h k = ((λ e. ground arith), (λ e. ground arith))
