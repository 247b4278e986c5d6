-- ===== src/Build/Id.antt =====
-- pkg/build/id.go: the identifiers of jobs, files and builds. A byte is a number below 256, a text
-- is the list of its bytes.
pub mod Hex
pub mod Text
pub mod Tests
use mathlib.Core.List.{List-discrete}
use distbuild.Common.{
  ℕ, ◌<◌, ◌≡◌, List, [], ◌∷◌, ◌++◌, length, All, ℕ_discrete, Result, ok, err, ◌>>=◌, if◌then◌else◌,
  ◌==◌, refl,
}
use Hex.{HexError, encode, decode, IsByte}

-- `type ID [sha1.Size]byte`; the maps compare identifiers byte by byte.
abbrev pub BuildId : Type 0
BuildId = List ℕ

unfoldable pub id_discrete : Discrete BuildId
unfolding ℕ_discrete
id_discrete = hlevel ℕ_discrete

-- `sha1.Size`
abbrev pub size : ℕ
size = 20

-- The values that the Go type has.
pub record IsId (id : BuildId) : Type 0 where
  pub sized : length id ≡ size
  pub bytes : All IsByte id

pub data IdError : Type 0 where
  bad_hex : HexError → IdError
  invalid_size : IdError

-- `id.String()`
abbrev pub to_string : BuildId → List ℕ
to_string id = encode id

-- `filepath.Join` of two names without a slash.
abbrev pub join : List ℕ → List ℕ → List ℕ
join a b = a ++ b'/' ∷ b

first_byte : BuildId → List ℕ
first_byte [] = []
first_byte (b ∷ _) = b ∷ []

pub path : BuildId → List ℕ
unfolding first_byte
path id = join (encode (first_byte id)) (encode id)

unfoldable pub marshal_text : BuildId → List ℕ
marshal_text id = encode id

lift_hex : Result HexError (List ℕ) → Result IdError (List ℕ)
lift_hex (ok raw) = ok raw
lift_hex (err e) = err (bad_hex e)

-- On an error the receiver keeps its old value, so only a success carries an identifier.
unfoldable pub unmarshal_text : List ℕ → Result IdError BuildId
unfolding lift_hex
unmarshal_text b = do
  raw ← lift_hex (decode b)
  if length raw == size then ok raw else err invalid_size
