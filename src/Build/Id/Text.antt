-- ===== src/Build/Id/Text.antt =====
-- What the textual form of an identifier promises.
use distbuild.Common.{ℕ, ◌≡◌, ◌↔◌, List, map, length, All, ok, arith}
use distbuild.Build.Id.{BuildId, size, IsId, marshal_text, unmarshal_text}
use distbuild.Build.Id.Hex.{decode, IsDigit, lower, decode-Decodes, decode-encode, decode_total}

-- Reading the text of an identifier gives the identifier back.
pub unmarshal_text-marshal_text :
    (id : BuildId) → IsId id → unmarshal_text (marshal_text id) ≡ ok id
unfolding unmarshal_text marshal_text
unmarshal_text-marshal_text id h = ground (arith, decode-encode id h.bytes, h.sized)

-- What is accepted: forty hexadecimal digits, in either case.
pub record IsIdText (text : List ℕ) : Type 0 where
  pub sized : length text ≡ 40
  pub digits : All IsDigit text

raw_of_unmarshal :
    (text : List ℕ) {id : BuildId}
    → unmarshal_text text ≡ ok id
    → (decode text ≡ ok id) × (length id ≡ size)
unfolding unmarshal_text
raw_of_unmarshal text h = ground arith

-- A text that is read stands for an identifier, and that identifier prints as the text in lower case.
pub unmarshal_text_sound :
    (text : List ℕ) {id : BuildId}
    → unmarshal_text text ≡ ok id
    → IsId id × IsIdText text × (marshal_text id ≡ map lower text)
unfolding marshal_text
unmarshal_text_sound text {id} h =
    let (e, sized) = raw_of_unmarshal text h in
    let d = decode-Decodes text e in
    (
      record { sized = sized; bytes = d.bytes },
      record { sized = omega (arith, d.size); digits = d.digits },
      d.spelled,
    )

unmarshal_of_decode :
    (text id : List ℕ) → decode text ≡ ok id → length id ≡ size → unmarshal_text text ≡ ok id
unfolding unmarshal_text
unmarshal_of_decode text id e h = ground arith

-- A text is read exactly when it has forty characters, all of them hexadecimal digits of either case.
pub unmarshal_text_iff :
    (text : List ℕ) → IsIdText text ↔ ((id : BuildId) × (unmarshal_text text ≡ ok id))
unmarshal_text_iff text = (there, λ (id, e). (unmarshal_text_sound text e).1)
  where
    there : IsIdText text → (id : BuildId) × (unmarshal_text text ≡ ok id)
    there h =
        let (id, e) = decode_total text size h.digits h.sized in
        let d = decode-Decodes text e in
        (id, unmarshal_of_decode text id e (omega (arith, d.size, h.sized)))
