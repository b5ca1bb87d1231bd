-- ===== src/Signer/Hex.antt =====
-- Package encoding/hex: two lower-case digits for each byte; a digit of either case is read.
use nft_auth_whitelist.Prelude.{
  ℕ, ◌+◌, ◌-◌, ◌*◌, ◌/◌, ◌%◌, ◌<◌, ◌≡◌, refl, Option, none, some, [], ◌∷◌, ◌&&◌, arith, leb, ltb,
  if◌then◌else◌, All,
}
use nft_auth_whitelist.Text.{Text}

abbrev pub IsByte : ℕ → Type 0
IsByte b = b < 256

hex_digit : ℕ → ℕ
hex_digit n = if ltb n 10 then b'0' + n else b'a' + (n - 10)

from_hex_digit : ℕ → Option ℕ
from_hex_digit c =
    if leb b'0' c && leb c b'9'
    then some (c - b'0')
    else if leb b'a' c && leb c b'f'
    then some (c - b'a' + 10)
    else if leb b'A' c && leb c b'F'
    then some (c - b'A' + 10)
    else none

-- hex.EncodeToString
unfoldable pub encode : Text → Text
unfolding hex_digit
encode [] = []
encode (b ∷ bs) = hex_digit (b / 16) ∷ hex_digit (b % 16) ∷ encode bs

abbrev join_byte : Option ℕ → Option ℕ → Option Text → Option Text
join_byte (some hi) (some lo) (some bs) = some ((hi * 16 + lo) ∷ bs)
join_byte _ _ _ = none

-- hex.DecodeString: an odd length or a byte that is no digit is an error.
unfoldable pub decode : Text → Option Text
unfolding from_hex_digit
decode [] = some []
decode (c ∷ []) = none
decode (c ∷ d ∷ rest) = join_byte (from_hex_digit c) (from_hex_digit d) (decode rest)

digit_round_trip : (n : ℕ) → n < 16 → from_hex_digit (hex_digit n) ≡ some n
unfolding hex_digit from_hex_digit
digit_round_trip n h = ground arith

-- The hex form of a sequence of bytes decodes to it.
pub decode-encode : (bs : Text) → All IsByte bs → decode (encode bs) ≡ some bs
unfolding encode decode
decode-encode [] h = refl
decode-encode (b ∷ bs) h =
    rw
      (
        digit_round_trip (b / 16) (omega arith),
        digit_round_trip (b % 16) (omega arith),
        decode-encode bs h.1,
      )
      (ground arith)
