-- ===== src/Crypto.antt =====
-- backend/isched_CryptoUtils.cpp: `encrypt_secret` and `decrypt_secret` with their wire format, and
-- `sha256_hex`. What OpenSSL computes is a parameter: each call that it may refuse answers with an
-- option or a test.
pub mod Wire
pub mod Hex
use isched.Common.{
  ℕ, suc, ◌+◌, ◌-◌, ◌/◌, ◌%◌, ◌≡◌, Bool, true, false, not, ◌&&◌, ◌||◌, List, [], ◌∷◌, ◌++◌, Option,
  none, some, Text, codes, ◌==◌, nat_eq, if◌then◌else◌, ltb, leb, is_empty, length, take, drop,
  get_elem?,
}

pub data CryptoError : Type 0 where
  no_master_secret derive_failed no_random cipher_failed encode_failed : CryptoError
  base64_failed length_wrapped too_short tag_not_set tag_mismatch : CryptoError

pub data Secret : Type 0 where
  threw : CryptoError → Secret
  bytes : Text → Secret

-- The calls of OpenSSL. `prepares` is whether a context is made and takes the algorithm, the length of
-- the nonce, the key and the nonce.
pub record OpenSsl : Type 0 where
  pub derive : Text → Text → Option Text
  pub encode_block : Text → Text
  pub decode_block : Text → Option Text
  pub prepares : Bool
  pub encrypt_update : Text → Text → Text → Option Text
  pub encrypt_final : Text → Text → Text → Option Text
  pub get_tag : Text → Text → Text → Option Text
  pub decrypt_update : Text → Text → Text → Option Text
  pub sets_tag : Bool
  pub decrypt_final : Text → Text → Text → Text → Option Text
  pub sha256 : Text → Option Text

abbrev pub equals_sign : ℕ
equals_sign = b'='

-- The number of equals signs at the end.
unfoldable pub padding : Text → ℕ
padding [] = 0
padding (c ∷ s) =
    let rest = padding s in
    if rest == length s then (if c == equals_sign then suc rest else rest) else rest

abbrev pub nonce_size : ℕ
nonce_size = 12

abbrev pub tag_size : ℕ
tag_size = 16

-- Wire format: nonce, tag, ciphertext.
unfoldable pub blob : Text → Text → Text → Text
blob nonce tag ciphertext = nonce ++ (tag ++ ciphertext)

abbrev pub hex_digit : ℕ → ℕ
hex_digit n = if ltb n 10 then b'0' + n else b'a' + n - 10

unfoldable pub hex : Text → Text
hex [] = []
hex (b ∷ bs) = hex_digit (b / 16 % 16) ∷ hex_digit (b % 16) ∷ hex bs

module _ (ssl : OpenSsl) where
  -- A length that wraps around is refused by the vector.
  unfoldable pub b64_decode : Text → Secret
  b64_decode encoded = if is_empty encoded then bytes [] else elim (ssl.decode_block encoded) [
    | none ↦ threw base64_failed
    | some out ↦
        if ltb (length out) (padding encoded)
        then threw length_wrapped
        else bytes (take (length out - padding encoded) out)
  ]

  abbrev pub sealed : Text → Text → Text → Secret
  sealed key nonce plaintext =
      if not ssl.prepares
      then threw cipher_failed
      else elim (ssl.encrypt_update key nonce plaintext) [
        | none ↦ threw cipher_failed
        | some front ↦ elim (ssl.encrypt_final key nonce plaintext) [
          | none ↦ threw cipher_failed
          | some back ↦ elim (ssl.get_tag key nonce plaintext) [
            | none ↦ threw cipher_failed
            | some tag ↦ bytes (ssl.encode_block (blob nonce tag (front ++ back)))
          ]
        ]
      ]

  -- The nonce is what `RAND_bytes` gives.
  unfoldable pub encrypt_secret : Option Text → Text → Text → Text → Secret
  encrypt_secret random plaintext tenant_id master_secret =
      if is_empty master_secret
      then threw no_master_secret
      else elim (ssl.derive master_secret tenant_id) [
        | none ↦ threw derive_failed
        | some key ↦ elim random [
          | none ↦ threw no_random
          | some nonce ↦ sealed key nonce plaintext
        ]
      ]

  abbrev pub deciphered : Text → Text → Text → Text → Secret
  deciphered key nonce tag ciphertext =
      if not ssl.prepares
      then threw cipher_failed
      else elim (ssl.decrypt_update key nonce ciphertext) [
        | none ↦ threw cipher_failed
        | some front ↦
            if not ssl.sets_tag
            then threw tag_not_set
            else elim (ssl.decrypt_final key nonce ciphertext tag) [
              | none ↦ threw tag_mismatch
              | some back ↦ bytes (front ++ back)
            ]
      ]

  abbrev pub unsealed : Text → Text → Text → Secret
  unsealed tenant_id master_secret received =
      if ltb (length received) (nonce_size + tag_size)
      then threw too_short
      else elim (ssl.derive master_secret tenant_id) [
        | none ↦ threw derive_failed
        | some key ↦
            deciphered key (take nonce_size received) (take tag_size (drop nonce_size received))
              (drop (nonce_size + tag_size) received)
      ]

  unfoldable pub decrypt_secret : Text → Text → Text → Secret
  decrypt_secret base64_ciphertext tenant_id master_secret =
      if is_empty master_secret
      then threw no_master_secret
      else elim (b64_decode base64_ciphertext) [
        | threw e ↦ threw e
        | bytes received ↦ unsealed tenant_id master_secret received
      ]

  unfoldable pub sha256_hex : Text → Option Text
  sha256_hex message = elim (ssl.sha256 message) [ none ↦ none | some digest ↦ some (hex digest) ]
