-- ===== src/Crypto/Wire.antt =====
-- backend/isched_CryptoUtils.cpp: from `encrypt_secret` to `decrypt_secret`.
use native.Mathlib.Nat.{zero-add, suc-add}
use isched.Common.{
  ℕ, zero, suc, ◌+◌, ◌-◌, ◌≡◌, refl, ap, ◌∙◌, true, false, [], ◌∷◌, ◌++◌, some, Text, nat_eq, ltb,
  is_empty, length, length-append, take, drop, arith, Bool-cases, Option-cases, inl, inr,
}
use isched.Crypto.{
  bytes, OpenSsl, padding, nonce_size, tag_size, blob, b64_decode, encrypt_secret, decrypt_secret,
  sealed, unsealed,
}

-- What OpenSSL documents of `EVP_EncodeBlock` and `EVP_DecodeBlock`: no text for no bytes, and the
-- bytes come back with one more for each equals sign at the end.
pub record IsBase64 (ssl : OpenSsl) : Type 0 where
  pub encodes : (s : Text) → is_empty (ssl.encode_block s) ≡ is_empty s
  pub decodes :
      (s : Text)
      → (zeros : Text) × (ssl.decode_block (ssl.encode_block s) ≡ some (s ++ zeros))
        × (length zeros ≡ padding (ssl.encode_block s))

-- What AES-256-GCM promises: a tag of 16 bytes, and with the same key and nonce the ciphertext and its
-- tag give the plaintext back.
pub record IsCipher (ssl : OpenSsl) : Type 0 where
  pub tag_length :
      (key nonce plain tag : Text) → ssl.get_tag key nonce plain ≡ some tag → length tag ≡ tag_size
  pub deciphers :
      (key nonce plain front back tag : Text)
      → ssl.encrypt_update key nonce plain ≡ some front
      → ssl.encrypt_final key nonce plain ≡ some back
      → ssl.get_tag key nonce plain ≡ some tag
      → (head : Text) × (tail : Text) × (ssl.decrypt_update key nonce (front ++ back) ≡ some head)
        × (ssl.decrypt_final key nonce (front ++ back) tag ≡ some tail)
        × (head ++ tail ≡ plain)

take-append : (s t : Text) → take (length s) (s ++ t) ≡ s
take-append [] t = refl
take-append (c ∷ s) t = ap (◌∷◌ c) (take-append s t)

drop-append : (s t : Text) → drop (length s) (s ++ t) ≡ t
drop-append [] t = refl
drop-append (c ∷ s) t = drop-append s t

take-exact : (n : ℕ) (s t : Text) → length s ≡ n → take n (s ++ t) ≡ s
take-exact n s t h = rw (← h) (take-append s t)

drop-exact : (n : ℕ) (s t : Text) → length s ≡ n → drop n (s ++ t) ≡ t
drop-exact n s t h = rw (← h) (drop-append s t)

drop_nil : (n : ℕ) → drop {A = ℕ} n [] ≡ []
drop_nil zero = refl
drop_nil (suc n) = refl

drop-drop : (m n : ℕ) (s : Text) → drop (m + n) s ≡ drop n (drop m s)
drop-drop zero n s = rw zero-add refl
drop-drop (suc m) n [] = rw (suc-add, drop_nil n) refl
drop-drop (suc m) n (c ∷ s) = rw suc-add (drop-drop m n s)

-- The three parts of the wire format are found again.
split_blob :
    (nonce tag ciphertext : Text)
    → length nonce ≡ nonce_size
    → length tag ≡ tag_size
    → (take nonce_size (blob nonce tag ciphertext) ≡ nonce)
      × (take tag_size (drop nonce_size (blob nonce tag ciphertext)) ≡ tag)
      × (drop (nonce_size + tag_size) (blob nonce tag ciphertext) ≡ ciphertext)
      × (ltb (length (blob nonce tag ciphertext)) (nonce_size + tag_size) ≡ false)
unfolding blob
split_blob nonce tag ciphertext n t =
    let cut = drop-exact nonce_size nonce (tag ++ ciphertext) n in
    (
      take-exact nonce_size nonce (tag ++ ciphertext) n,
      rw cut (take-exact tag_size tag ciphertext t),
      drop-drop nonce_size tag_size (nonce ++ (tag ++ ciphertext))
          ∙ rw cut (drop-exact tag_size tag ciphertext t),
      ground (arith, n, t, length-append nonce (tag ++ ciphertext), length-append tag ciphertext),
    )

blob_full :
    (nonce tag ciphertext : Text)
    → length nonce ≡ nonce_size
    → is_empty (blob nonce tag ciphertext) ≡ false
unfolding blob
blob_full [] tag ciphertext h = absurd (omega (arith, h))
blob_full (c ∷ nonce) tag ciphertext h = refl

module _ (ssl : OpenSsl) where
  b64_decode-encode_block :
      (s : Text) → IsBase64 ssl → is_empty s ≡ false → b64_decode ssl (ssl.encode_block s) ≡ bytes s
  unfolding b64_decode
  b64_decode-encode_block s b full =
      let (zeros, decoded, padded) = b.decodes s in
      let size : length (s ++ zeros) ≡ length s + length zeros = length-append s zeros in
      rw (b.encodes s, full, decoded)
        (ground (
          arith,
          size,
          padded,
          take-exact (length (s ++ zeros) - padding (ssl.encode_block s)) s zeros
              (omega (arith, size, padded)),
        ))

  -- What an encryption that succeeds has computed.
  record Sealed (key nonce plaintext sent : Text) : Type 0 where
    front : Text
    back : Text
    tag : Text
    prepared : ssl.prepares ≡ true
    updated : ssl.encrypt_update key nonce plaintext ≡ some front
    ended : ssl.encrypt_final key nonce plaintext ≡ some back
    tagged : ssl.get_tag key nonce plaintext ≡ some tag
    sent_is : sent ≡ ssl.encode_block (blob nonce tag (front ++ back))

  sealed-Sealed :
      (key nonce plaintext sent : Text)
      → sealed ssl key nonce plaintext ≡ bytes sent
      → Sealed key nonce plaintext sent
  sealed-Sealed key nonce plaintext sent h = elim (Bool-cases ssl.prepares) [
    | inr p ↦ absurd (ground (arith, p, h))
    | inl p ↦ elim (Option-cases (ssl.encrypt_update key nonce plaintext)) [
      | inl u ↦ absurd (ground (arith, p, u, h))
      | inr (front, u) ↦ elim (Option-cases (ssl.encrypt_final key nonce plaintext)) [
        | inl e ↦ absurd (ground (arith, p, u, e, h))
        | inr (back, e) ↦ elim (Option-cases (ssl.get_tag key nonce plaintext)) [
          | inl t ↦ absurd (ground (arith, p, u, e, t, h))
          | inr (tag, t) ↦ record {
            front = front;
            back = back;
            tag = tag;
            prepared = p;
            updated = u;
            ended = e;
            tagged = t;
            sent_is = ground (arith, p, u, e, t, h);
          }
        ]
      ]
    ]
  ]

  unsealed-blob :
      (key nonce plaintext sent tenant_id master_secret : Text)
      → IsCipher ssl
      → ssl.sets_tag ≡ true
      → length nonce ≡ nonce_size
      → ssl.derive master_secret tenant_id ≡ some key
      → (e : Sealed key nonce plaintext sent)
      → unsealed ssl tenant_id master_secret (blob nonce e.tag (e.front ++ e.back))
        ≡ bytes plaintext
  unsealed-blob key nonce plaintext sent tenant_id master_secret c st size k e =
      let (n, t, ct, long) =
        split_blob nonce e.tag (e.front ++ e.back) size
          (c.tag_length key nonce plaintext e.tag e.tagged) in
      let (head, tail, u, f, whole) =
        c.deciphers key nonce plaintext e.front e.back e.tag e.updated e.ended e.tagged in
      ground (arith, long, k, n, t, ct, e.prepared, u, st, f, whole)

  -- What is encrypted for a tenant is decrypted for it under the same master secret, whatever the nonce.
  pub decrypt_secret-encrypt_secret :
      (nonce plaintext tenant_id master_secret sent : Text)
      → IsBase64 ssl
      → IsCipher ssl
      → ssl.sets_tag ≡ true
      → length nonce ≡ nonce_size
      → encrypt_secret ssl (some nonce) plaintext tenant_id master_secret ≡ bytes sent
      → decrypt_secret ssl sent tenant_id master_secret ≡ bytes plaintext
  unfolding encrypt_secret decrypt_secret
  decrypt_secret-encrypt_secret nonce plaintext tenant_id master_secret sent b c st size h =
      elim (Bool-cases (is_empty master_secret)) [
        | inl m ↦ absurd (ground (arith, m, h))
        | inr m ↦ elim (Option-cases (ssl.derive master_secret tenant_id)) [
          | inl k ↦ absurd (ground (arith, m, k, h))
          | inr (key, k) ↦
              let e = sealed-Sealed key nonce plaintext sent (ground (arith, m, k, h)) in
              rw
                (
                  m,
                  e.sent_is,
                  b64_decode-encode_block (blob nonce e.tag (e.front ++ e.back)) b
                      (blob_full nonce e.tag (e.front ++ e.back) size),
                )
                (unsealed-blob key nonce plaintext sent tenant_id master_secret c st size k e)
        ]
      ]
