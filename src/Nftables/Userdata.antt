-- ===== src/Nftables/Userdata.antt =====
-- internal/portforwarding/nftables/userdata/userdata.go: a rule's comment as user data. A Go string
-- and a byte slice are both the list of their bytes; a panic is `none`.
pub mod Roundtrip
mod Tests
use kertical.Prelude.{
  ℕ, zero, suc, ◌+◌, ◌-◌, ◌*◌, ◌/◌, ◌%◌, Bool, Option, none, some, List, [], ◌∷◌, ◌++◌, ltb, leb,
  if◌then◌else◌, length, take, drop,
}

abbrev pub uint16 : ℕ → ℕ
uint16 n = n % 65536

-- encoding/binary's big-endian order
abbrev pub put_uint16 : ℕ → List ℕ
put_uint16 n = n / 256 ∷ n % 256 ∷ []

abbrev pub get_uint16 : List ℕ → ℕ
get_uint16 [] = 0
get_uint16 (hi ∷ []) = 0
get_uint16 (hi ∷ lo ∷ _) = hi * 256 + lo

-- The buffer has the header, the comment, and one byte that stays zero.
unfoldable pub marshal : List ℕ → List ℕ
marshal [] = []
marshal (c ∷ cs) = put_uint16 (uint16 (length (c ∷ cs) + 1)) ++ ((c ∷ cs) ++ 0 ∷ [])

-- `data[lo:hi]`; Go panics unless lo ≤ hi ≤ cap, and no index is past the length here.
abbrev pub slice : List ℕ → ℕ → ℕ → Option (List ℕ)
slice xs lo hi = if leb lo hi then some (take (hi - lo) (drop lo xs)) else none

-- `1+sz` is computed in uint16.
unfoldable pub unmarshal : List ℕ → Option (List ℕ)
unmarshal bytes =
    let sz = get_uint16 bytes in
    if ltb (length bytes) 2
    then some []
    else if ltb (length bytes) (sz + 2)
    then some []
    else slice bytes 2 (uint16 (1 + sz))
