-- ===== src/Crypto/Hex.antt =====
-- backend/isched_CryptoUtils.cpp: the texts that `sha256_hex` makes of digests.
use isched.Common.{
  ℕ, ◌*◌, ◌/◌, ◌%◌, ◌<◌, ◌≡◌, refl, Bool, true, ◌&&◌, ◌||◌, [], ◌∷◌, some, Text, ltb, leb, length,
  all, is_digit, arith,
}
use isched.Crypto.{OpenSsl, hex_digit, hex, sha256_hex}

abbrev pub is_byte : ℕ → Bool
is_byte b = ltb b 256

abbrev pub is_hex_code : ℕ → Bool
is_hex_code c = is_digit c || leb b'a' c && leb c b'f'

hex_digit-injective : (m n : ℕ) → m < 16 → n < 16 → hex_digit m ≡ hex_digit n → m ≡ n
hex_digit-injective m n h k e = ground arith

hex_byte-injective :
    (a b : ℕ)
    → is_byte a ≡ true
    → is_byte b ≡ true
    → hex_digit (a / 16 % 16) ≡ hex_digit (b / 16 % 16)
    → hex_digit (a % 16) ≡ hex_digit (b % 16)
    → a ≡ b
hex_byte-injective a b h k high low = ground (
  arith,
  hex_digit-injective (a / 16 % 16) (b / 16 % 16) (omega arith) (omega arith) high,
  hex_digit-injective (a % 16) (b % 16) (omega arith) (omega arith) low,
)

hex-injective : (s t : Text) → all is_byte s ≡ true → all is_byte t ≡ true → hex s ≡ hex t → s ≡ t
unfolding hex
hex-injective [] [] h k e = refl
hex-injective [] (b ∷ t) h k e = cc
hex-injective (a ∷ s) [] h k e = cc
hex-injective (a ∷ s) (b ∷ t) h k e =
    let high : hex_digit (a / 16 % 16) ≡ hex_digit (b / 16 % 16) = cc in
    let low : hex_digit (a % 16) ≡ hex_digit (b % 16) = cc in
    let rest : hex s ≡ hex t = cc in
    joined (hex_byte-injective a b (ground arith) (ground arith) high low)
      (hex-injective s t (ground arith) (ground arith) rest)
  where
    joined : {x y : ℕ} {xs ys : Text} → x ≡ y → xs ≡ ys → ◌≡◌ {A = Text} (x ∷ xs) (y ∷ ys)
    joined p q = cc

hex_codes : (s : Text) → all is_hex_code (hex s) ≡ true
unfolding hex
hex_codes [] = refl
hex_codes (b ∷ s) = ground (arith, hex_codes s)

length-hex : (s : Text) → length (hex s) ≡ length s * 2
unfolding hex
length-hex [] = refl
length-hex (b ∷ s) = omega (arith, length-hex s)

-- Messages whose digests differ have different texts; the text of a digest of 32 bytes has 64 small
-- hexadecimal digits.
pub sha256_hex-injective :
    (ssl : OpenSsl) (m n d e : Text)
    → ssl.sha256 m ≡ some d
    → ssl.sha256 n ≡ some e
    → all is_byte d ≡ true
    → all is_byte e ≡ true
    → length d ≡ 32
    → (sha256_hex ssl m ≡ sha256_hex ssl n → d ≡ e)
      × (s : Text) × (sha256_hex ssl m ≡ some s)
      × (length s ≡ 64)
      × (all is_hex_code s ≡ true)
unfolding sha256_hex
sha256_hex-injective ssl m n d e p q bd be size = (
  λ same. hex-injective d e bd be (ground (arith, p, q, same)),
  hex d,
  ground (arith, p),
  omega (arith, length-hex d, size),
  hex_codes d,
)
