-- ===== src/Nftables/Userdata/Tests.antt =====
-- Comments as bytes, and the theorems at them.
use kertical.Prelude.{ℕ, ◌+◌, ◌*◌, ◌≤◌, ◌≡◌, ◌↔◌, ◌⊎◌, refl, some, none, [], ◌∷◌, arith, length}
use kertical.Nftables.Userdata.{marshal, unmarshal}
use kertical.Nftables.Userdata.Roundtrip.{unmarshal-marshal, unmarshal-panics}

marshal_ab : marshal (b'a' ∷ b'b' ∷ []) ≡ 0 ∷ 3 ∷ b'a' ∷ b'b' ∷ 0 ∷ []
unfolding marshal
marshal_ab = refl

unmarshal_short : unmarshal (0 ∷ 3 ∷ b'a' ∷ []) ≡ some []
unfolding unmarshal
unmarshal_short = refl

unmarshal-marshal_example : unmarshal (marshal (b'a' ∷ b'b' ∷ [])) ≡ some (b'a' ∷ b'b' ∷ [])
unmarshal-marshal_example = unmarshal-marshal (b'a' ∷ b'b' ∷ []) (omega arith)

unmarshal-panics_example :
    (unmarshal (0 ∷ 0 ∷ []) ≡ none)
    ↔ ((0 * 256 + 0 ≤ length {A = ℕ} []) × ((0 * 256 + 0 ≡ 0) ⊎ (0 * 256 + 0 ≡ 65535)))
unmarshal-panics_example = unmarshal-panics 0 0 [] (omega arith) (omega arith)
