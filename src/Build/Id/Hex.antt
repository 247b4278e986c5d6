-- ===== src/Build/Id/Hex.antt =====
-- The parts of Go's encoding/hex that pkg/build/id.go calls: EncodeToString and DecodeString.
use distbuild.Common.{
  ℕ, zero, suc, ◌+◌, ◌-◌, ◌*◌, ◌/◌, ◌%◌, ◌<◌, ◌≡◌, refl, inl, inr, true, ◌&&◌, Option, none, some,
  List, [], ◌∷◌, map, Result, ok, err, ◌>>=◌, if◌then◌else◌, ltb, leb, length, All, is_some, arith,
  Option-cases, >>=-eq-ok,
}

pub data HexError : Type 0 where
  invalid_byte : ℕ → HexError
  odd_length : HexError

pub digit : ℕ → ℕ
digit n = if ltb n 10 then b'0' + n else b'a' + (n - 10)

-- `reverseHexTable`: both cases are accepted.
unfoldable pub value : ℕ → Option ℕ
value c =
    if leb b'0' c && leb c b'9'
    then some (c - b'0')
    else if leb b'a' c && leb c b'f'
    then some (c - b'a' + 10)
    else if leb b'A' c && leb c b'F'
    then some (c - b'A' + 10)
    else none

unfoldable pub encode : List ℕ → List ℕ
encode [] = []
encode (b ∷ bs) = digit (b / 16) ∷ digit (b % 16) ∷ encode bs

-- The first bad byte is reported, a left-over digit only where no byte is bad.
unfoldable pub decode : List ℕ → Result HexError (List ℕ)
decode [] = ok []
decode (p ∷ []) = elim (value p) [ none ↦ err (invalid_byte p) | some _ ↦ err odd_length ]
decode (p ∷ q ∷ rest) = elim (value p) [
  | none ↦ err (invalid_byte p)
  | some a ↦ elim (value q) [
    | none ↦ err (invalid_byte q)
    | some b ↦ decode rest >>= λ bs. ok ((a * 16 + b) ∷ bs)
  ]
]

-- The lower-case spelling of a digit.
abbrev pub lower : ℕ → ℕ
lower c = if leb b'A' c && leb c b'F' then c + 32 else c

abbrev pub IsDigit : ℕ → Type 0
IsDigit c = is_some (value c) ≡ true

abbrev pub IsByte : ℕ → Type 0
IsByte b = b < 256

value-digit : (n : ℕ) → n < 16 → value (digit n) ≡ some n
unfolding value digit
value-digit n h = ground arith

digit-value : (c n : ℕ) → value c ≡ some n → digit n ≡ lower c
unfolding value digit
digit-value c n h = ground arith

value-lt : (c n : ℕ) → value c ≡ some n → n < 16
unfolding value
value-lt c n h = ground arith

pub length-encode : (bs : List ℕ) → length (encode bs) ≡ length bs * 2
unfolding encode
length-encode [] = refl
length-encode (b ∷ bs) = omega (arith, length-encode bs)

pub decode-encode : (bs : List ℕ) → All IsByte bs → decode (encode bs) ≡ ok bs
unfolding decode encode
decode-encode [] h = refl
decode-encode (b ∷ bs) h =
    ground (arith, value-digit (b / 16), value-digit (b % 16), decode-encode bs h.1)

-- What a successful decoding says of its input and its output.
pub record Decodes (text bs : List ℕ) : Type 0 where
  pub size : length text ≡ length bs * 2
  pub bytes : All IsByte bs
  pub digits : All IsDigit text
  pub spelled : encode bs ≡ map lower text

nil-Decodes : Decodes [] []
unfolding encode
nil-Decodes = record { size = refl; bytes = tt; digits = tt; spelled = refl }

cons-Decodes :
    (p q : ℕ) (rest : List ℕ) (a b : ℕ) (bs : List ℕ)
    → value p ≡ some a
    → value q ≡ some b
    → Decodes rest bs
    → Decodes (p ∷ q ∷ rest) ((a * 16 + b) ∷ bs)
unfolding encode
cons-Decodes p q rest a b bs hp hq d = record {
  size = omega (arith, d.size);
  bytes = (omega (arith, value-lt p a hp, value-lt q b hq), d.bytes);
  digits = (rw hp, (rw hq, d.digits));
  spelled =
      ground (
        arith,
        value-lt p a hp,
        value-lt q b hq,
        digit-value p a hp,
        digit-value q b hq,
        d.spelled,
      );
}

pub decode-Decodes : (text : List ℕ) {bs : List ℕ} → decode text ≡ ok bs → Decodes text bs
unfolding decode
decode-Decodes [] {bs} h = let e : [] ≡ bs = cc in rw (← e) nil-Decodes
decode-Decodes (p ∷ []) {bs} h = absurd (ground arith)
decode-Decodes (p ∷ q ∷ rest) {bs} h = elim (Option-cases (value p)) [
  | inl e ↦ absurd (ground arith)
  | inr (a, hp) ↦ elim (Option-cases (value q)) [
    | inl e ↦ absurd (ground arith)
    | inr (b, hq) ↦
        let (bs', e, hr) =
          >>=-eq-ok (decode rest) (λ bs. ok ((a * 16 + b) ∷ bs)) (rw (hp, hq, decode) at h) in
        let e' : (a * 16 + b) ∷ bs' ≡ bs = cc in
        rw (← e') (cons-Decodes p q rest a b bs' hp hq (decode-Decodes rest hr))
  ]
]

pub decode_total :
    (text : List ℕ) (n : ℕ)
    → All IsDigit text
    → length text ≡ n * 2
    → (bs : List ℕ) × (decode text ≡ ok bs)
unfolding decode
decode_total [] n h e = ([], refl)
decode_total (p ∷ []) n h e = absurd (omega arith)
decode_total (p ∷ q ∷ rest) zero h e = absurd (omega arith)
decode_total (p ∷ q ∷ rest) (suc n) (hp, (hq, h)) e =
    let (bs, r) = decode_total rest n h (omega arith) in
    elim (Option-cases (value p)) [
      | inl e ↦ absurd (ground arith)
      | inr (a, hp) ↦ elim (Option-cases (value q)) [
        | inl e ↦ absurd (ground arith)
        | inr (b, hq) ↦ ((a * 16 + b) ∷ bs, rw (hp, hq, r, decode))
      ]
    ]
