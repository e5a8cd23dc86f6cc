-- ===== src/Cli/Hex.antt =====
-- A block's data on the line: two hexadecimal digits for a byte, read back in chunks of two bytes.
use ipfs_embed.Common.{
  ℕ, ◌+◌, ◌-◌, ◌*◌, ◌/◌, ◌%◌, ◌<◌, ◌≡◌, refl, true, Option, none, some, List, [], ◌∷◌, ◌++◌, ltb,
  if◌then◌else◌, ◌>>=◌, All, arith, ◌&&◌,
}
use ipfs_embed.Cli.Words.{Text, between, no_space, IsWord, is_whitespace}

abbrev pub hex_digit : ℕ → ℕ
hex_digit d = if ltb d 10 then b'0' + d else b'a' + (d - 10)

-- `for byte in block.data() { write!(f, "{:02x}", byte)? }`
unfoldable pub show_hex : List ℕ → Text
show_hex [] = []
show_hex (byte ∷ bytes) = hex_digit (byte / 16) ∷ hex_digit (byte % 16) ∷ show_hex bytes

-- The UTF-8 bytes of a scalar value.
abbrev pub utf8 : ℕ → List ℕ
utf8 c =
    if ltb c 128
    then c ∷ []
    else if ltb c 2048
    then (192 + c / 64) ∷ (128 + c % 64) ∷ []
    else if ltb c 65536
    then (224 + c / 4096) ∷ (128 + c / 64 % 64) ∷ (128 + c % 64) ∷ []
    else (240 + c / 262144) ∷ (128 + c / 4096 % 64) ∷ (128 + c / 64 % 64) ∷ (128 + c % 64) ∷ []

-- `str::as_bytes`
unfoldable pub as_bytes : Text → List ℕ
as_bytes [] = []
as_bytes (c ∷ s) = utf8 c ++ as_bytes s

-- `str::from_utf8` of one or two bytes.
abbrev pub from_utf8 : List ℕ → Option Text
from_utf8 (a ∷ []) = if ltb a 128 then some (a ∷ []) else none
from_utf8 (a ∷ b ∷ []) =
    if ltb a 128 && ltb b 128
    then some (a ∷ b ∷ [])
    else if between 194 223 a && between 128 191 b
    then some (((a - 192) * 64 + (b - 128)) ∷ [])
    else none
from_utf8 _ = none

-- `char::to_digit(16)`
abbrev pub to_digit : ℕ → Option ℕ
to_digit c =
    if between b'0' b'9' c
    then some (c - b'0')
    else if between b'a' b'f' c
    then some (c - b'a' + 10)
    else if between b'A' b'F' c
    then some (c - b'A' + 10)
    else none

-- The digits of a `u8`; a larger number overflows.
unfoldable pub digits : ℕ → Text → Option ℕ
digits n [] = some n
digits n (c ∷ s) = to_digit c >>= λ d. if ltb (n * 16 + d) 256 then digits (n * 16 + d) s else none

-- `u8::from_str_radix(s, 16)`, which takes a leading plus sign.
unfoldable pub from_str_radix : Text → Option ℕ
unfolding digits
from_str_radix [] = none
from_str_radix (c ∷ []) = digits 0 (c ∷ [])
from_str_radix (c ∷ d ∷ s) = if between b'+' b'+' c then digits 0 (d ∷ s) else digits 0 (c ∷ d ∷ s)

abbrev pub read_chunk : List ℕ → Option ℕ
read_chunk chunk = from_utf8 chunk >>= from_str_radix

-- The loop over `chunks(2)`.
unfoldable pub read_chunks : List ℕ → Option (List ℕ)
read_chunks [] = some []
read_chunks (a ∷ []) = do byte ← read_chunk (a ∷ []); some (byte ∷ [])
read_chunks (a ∷ b ∷ rest) = do
  byte ← read_chunk (a ∷ b ∷ [])
  bytes ← read_chunks rest
  some (byte ∷ bytes)

unfoldable pub read_hex : Text → Option (List ℕ)
unfolding as_bytes read_chunks
read_hex s = read_chunks (as_bytes s)

abbrev pub IsByte : ℕ → Type 0
IsByte b = b < 256

to_digit-hex_digit : (d : ℕ) → d < 16 → to_digit (hex_digit d) ≡ some d
to_digit-hex_digit d h = ground arith

hex_digit-ascii : (d : ℕ) → d < 16 → (hex_digit d < 128) × (48 < hex_digit d + 1)
hex_digit-ascii d h = ground arith

utf8-hex_digit : (d : ℕ) → d < 16 → utf8 (hex_digit d) ≡ hex_digit d ∷ []
utf8-hex_digit d h = ground arith

read_chunk-hex :
    (b : ℕ) → IsByte b → read_chunk (hex_digit (b / 16) ∷ hex_digit (b % 16) ∷ []) ≡ some b
unfolding from_str_radix digits
read_chunk-hex b h = ground arith

-- Data bytes printed in hexadecimal read back.
pub read_hex-show_hex : (bytes : List ℕ) → All IsByte bytes → read_hex (show_hex bytes) ≡ some bytes
unfolding read_hex show_hex as_bytes read_chunks
read_hex-show_hex [] h = refl
read_hex-show_hex (b ∷ bytes) h =
    rw
      (
        utf8-hex_digit (b / 16) (omega (arith, h.0)),
        utf8-hex_digit (b % 16) (omega arith),
        read_chunk-hex b h.0,
        read_hex-show_hex bytes h.1,
      )
      refl

no_space-show_hex : (bytes : List ℕ) → All IsByte bytes → no_space (show_hex bytes) ≡ true
unfolding show_hex is_whitespace
no_space-show_hex [] h = refl
no_space-show_hex (b ∷ bytes) h = ground (arith, no_space-show_hex bytes h.1)

pub show_hex-IsWord :
    (b : ℕ) (bytes : List ℕ) → All IsByte (b ∷ bytes) → IsWord (show_hex (b ∷ bytes))
unfolding show_hex
show_hex-IsWord b bytes h = (refl, no_space-show_hex (b ∷ bytes) h)
