-- ===== src/Build/Id/Tests.antt =====
-- Runs of pkg/build/id.go at concrete inputs.
use distbuild.Common.{ℕ, ◌≡◌, refl, List, [], ◌∷◌, ok, err, replicate, arith, ◌↔◌}
use distbuild.Build.Id.{BuildId, IsId, marshal_text, unmarshal_text, bad_hex, invalid_size}
use distbuild.Build.Id.Hex.{decode, value, odd_length}
use distbuild.Build.Id.Text.{IsIdText, unmarshal_text-marshal_text, unmarshal_text_iff}

-- `ID{b}`
abbrev pub id_of : ℕ → BuildId
id_of b = b ∷ replicate 19 0

id_of_zero-IsId : IsId (id_of 0xa7)
id_of_zero-IsId = record { sized = refl; bytes = omega arith }

pub id_of_one-IsId : IsId (id_of 1)
id_of_one-IsId = record { sized = refl; bytes = omega arith }

unmarshal_text-marshal_text_example : unmarshal_text (marshal_text (id_of 0xa7)) ≡ ok (id_of 0xa7)
unmarshal_text-marshal_text_example = unmarshal_text-marshal_text (id_of 0xa7) id_of_zero-IsId

-- Upper case is read too.
abbrev upper_text : List ℕ
upper_text = b'A' ∷ b'7' ∷ replicate 38 b'0'

upper_text_read : unmarshal_text upper_text ≡ ok (id_of 0xa7)
unfolding unmarshal_text decode value
upper_text_read = refl

unmarshal_text_short : unmarshal_text (b'A' ∷ b'7' ∷ []) ≡ err invalid_size
unfolding unmarshal_text decode value
unmarshal_text_short = refl

unmarshal_text_odd : unmarshal_text (b'A' ∷ []) ≡ err (bad_hex odd_length)
unfolding unmarshal_text decode value
unmarshal_text_odd = refl

unmarshal_text_iff_example :
    IsIdText upper_text ↔ ((id : BuildId) × (unmarshal_text upper_text ≡ ok id))
unmarshal_text_iff_example = unmarshal_text_iff upper_text
