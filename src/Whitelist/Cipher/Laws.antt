-- ===== src/Whitelist/Cipher/Laws.antt =====
-- rdp_proxy/whitelist.py: what `_decrypt_ip` makes of what `_encrypt_ip` writes.
use rdp_on_demand_proxy_serv.Base.{
  ℕ, zero, suc, ◌+◌, ◌≤◌, ◌≡◌, refl, ap, ◌∙◌, sym, String, ◌<>◌, false, some, List, [], ◌∷◌, ◌++◌,
  ltb, length, length-append, take, arith, inl, inr, Bool-cases,
}
use rdp_on_demand_proxy_serv.Base.Bits.{
  IsBytes, to_bytes, to_bytes-IsBytes, length-to_bytes, append-IsBytes, bit_xor_twice, bit_xor-byte,
}
use rdp_on_demand_proxy_serv.Base.Base64.{encode, rstrip_padding, decode_unpadded}
use rdp_on_demand_proxy_serv.Base.Base64.Laws.{decode_unpadded-encode}
use rdp_on_demand_proxy_serv.Whitelist.{Codec}
use rdp_on_demand_proxy_serv.Whitelist.Listing.{IsCodec}
use rdp_on_demand_proxy_serv.Whitelist.Cipher.{
  Machine, nonce_bytes, cipher_ip, block, keystream_loop, keystream, xor_bytes, encrypt_ip, drop,
  decrypt_raw, decrypt_ip,
}

-- SHA-256 gives 32 bytes, UTF-8 is read back, and a normal form is not empty and normal.
pub record IsMachine (m : Machine) : Type 0 where
  pub digest : (xs : List ℕ) → IsBytes (m.sha256 xs)
  pub digest_size : (xs : List ℕ) → length (m.sha256 xs) ≡ 32
  pub text : (ip : String) → m.normalize_ip ip ≡ some ip → IsBytes (m.encode_text ip)
  pub text_back :
      (ip : String) → m.normalize_ip ip ≡ some ip → m.decode_text (m.encode_text ip) ≡ some ip
  pub normal : (t : String) (ip : String) → m.normalize_ip t ≡ some ip → m.normalize_ip ip ≡ some ip
  pub nonempty :
      (t : String) (ip : String) → m.normalize_ip t ≡ some ip → 1 ≤ length (m.encode_text ip)

IsBytes-take : (n : ℕ) (xs : List ℕ) → IsBytes xs → IsBytes (take n xs)
IsBytes-take zero xs h = tt
IsBytes-take (suc n) [] h = tt
IsBytes-take (suc n) (x ∷ xs) h = (h.0, IsBytes-take n xs h.1)

length-take_all : (n : ℕ) (xs : List ℕ) → n ≤ length xs → length (take n xs) ≡ n
length-take_all zero xs h = refl
length-take_all (suc n) [] h = absurd (omega arith)
length-take_all (suc n) (x ∷ xs) h = omega (arith, length-take_all n xs (omega arith))

take-append : (n : ℕ) (xs ys : List ℕ) → length xs ≡ n → take n (xs ++ ys) ≡ xs
take-append zero [] ys h = refl
take-append zero (x ∷ xs) ys h = absurd (omega arith)
take-append (suc n) [] ys h = absurd (omega arith)
take-append (suc n) (x ∷ xs) ys h = ap (λ (t : List ℕ). x ∷ t) (take-append n xs ys (omega arith))

drop-append : (n : ℕ) (xs ys : List ℕ) → length xs ≡ n → drop n (xs ++ ys) ≡ ys
unfolding drop
drop-append zero [] ys h = refl
drop-append zero (x ∷ xs) ys h = absurd (omega arith)
drop-append (suc n) [] ys h = absurd (omega arith)
drop-append (suc n) (x ∷ xs) ys h = drop-append n xs ys (omega arith)

xor_bytes_twice :
    (xs mask : List ℕ) → length xs ≤ length mask → xor_bytes (xor_bytes xs mask) mask ≡ xs
unfolding xor_bytes
xor_bytes_twice [] mask h = refl
xor_bytes_twice (x ∷ xs) [] h = absurd (omega arith)
xor_bytes_twice (x ∷ xs) (y ∷ mask) h =
    rw (bit_xor_twice x y, xor_bytes_twice xs mask (omega arith)) refl

length-xor_bytes :
    (xs mask : List ℕ) → length xs ≤ length mask → length (xor_bytes xs mask) ≡ length xs
unfolding xor_bytes
length-xor_bytes [] mask h = refl
length-xor_bytes (x ∷ xs) [] h = absurd (omega arith)
length-xor_bytes (x ∷ xs) (y ∷ mask) h = omega (arith, length-xor_bytes xs mask (omega arith))

xor_bytes-IsBytes : (xs mask : List ℕ) → IsBytes xs → IsBytes mask → IsBytes (xor_bytes xs mask)
unfolding xor_bytes
xor_bytes-IsBytes [] mask h k = tt
xor_bytes-IsBytes (x ∷ xs) [] h k = tt
xor_bytes-IsBytes (x ∷ xs) (y ∷ mask) h k =
    (bit_xor-byte x y h.0 k.0, xor_bytes-IsBytes xs mask h.1 k.1)

module _ (m : Machine) (is : IsMachine m) (secret nonce : List ℕ) where
  loop-IsBytes :
      (fuel counter size : ℕ) (output : List ℕ)
      → IsBytes output
      → IsBytes (keystream_loop m secret nonce fuel counter size output)
  unfolding keystream_loop
  loop-IsBytes zero counter size output h = h
  loop-IsBytes (suc fuel) counter size output h = elim (Bool-cases (ltb (length output) size)) [
    | inl e ↦ rw e (
        loop-IsBytes fuel (counter + 1) size (output ++ block m secret nonce counter)
          (append-IsBytes output (block m secret nonce counter) h (is.digest _)))
    | inr e ↦ rw e h
  ]

  -- Each round adds a digest, so as many rounds as bytes are enough.
  loop_long :
      (fuel counter size : ℕ) (output : List ℕ)
      → size ≤ fuel + length output
      → size ≤ length (keystream_loop m secret nonce fuel counter size output)
  unfolding keystream_loop
  loop_long zero counter size output h = omega arith
  loop_long (suc fuel) counter size output h = elim (Bool-cases (ltb (length output) size)) [
    | inl e ↦ rw e (
        loop_long fuel (counter + 1) size (output ++ block m secret nonce counter)
          (omega (arith, length-append output (block m secret nonce counter), is.digest_size _)))
    | inr e ↦ rw e (ground arith)
  ]

  keystream-IsBytes : (size : ℕ) → IsBytes (keystream m secret nonce size)
  unfolding keystream
  keystream-IsBytes size = IsBytes-take size _ (loop-IsBytes size 0 size [] tt)

  pub length-keystream : (size : ℕ) → length (keystream m secret nonce size) ≡ size
  unfolding keystream
  length-keystream size = length-take_all size _ (loop_long size 0 size [] (omega arith))

  -- The second pass of the key stream over a text gives the text.
  masked_twice :
      (ip : String)
      → let plain = m.encode_text ip in
        let cipher = xor_bytes plain (keystream m secret nonce (length plain)) in
        xor_bytes cipher (keystream m secret nonce (length cipher)) ≡ plain
  masked_twice ip =
      let plain = m.encode_text ip in
      let mask = keystream m secret nonce (length plain) in
      let enough : length plain ≤ length mask = omega (arith, length-keystream (length plain)) in
      rw (length-xor_bytes plain mask enough) (xor_bytes_twice plain mask enough)

  -- The bytes of a stored value, taken apart and decrypted.
  decrypt_raw-encrypted :
      (ip : String)
      → length nonce ≡ nonce_bytes
      → m.normalize_ip ip ≡ some ip
      → let plain = m.encode_text ip in
        decrypt_raw m secret
          (some (nonce ++ xor_bytes plain (keystream m secret nonce (length plain))))
        ≡ some ip
  unfolding decrypt_raw
  decrypt_raw-encrypted ip size e =
      let plain = m.encode_text ip in
      let mask = keystream m secret nonce (length plain) in
      let cipher = xor_bytes plain mask in
      let enough : length plain ≤ length mask = omega (arith, length-keystream (length plain)) in
      let long : ltb (length (nonce ++ cipher)) 17 ≡ false = ground (
        arith,
        length-append nonce cipher,
        length-xor_bytes plain mask enough,
        is.nonempty ip ip e,
      ) in
      rw
        (long, take-append nonce_bytes nonce cipher size, drop-append nonce_bytes nonce cipher size)
        (rw (masked_twice ip, is.text_back ip e) e)

-- An address is read back from the value that is stored for it, whatever the secret and the nonce: each
-- block of the key stream is long enough, the padding of the text is restored, and the second
-- pass of the same stream undoes the first. Assumed is that SHA-256 gives 32 bytes, that UTF-8 is read back,
-- and that a normal form is normal and not empty.
pub decrypt_ip-encrypt_ip :
    (m : Machine) (secret : List ℕ) (number : ℕ) (ip : String)
    → IsMachine m
    → m.normalize_ip ip ≡ some ip
    → decrypt_ip m secret (encrypt_ip m secret number ip) ≡ some ip
unfolding decrypt_ip encrypt_ip
decrypt_ip-encrypt_ip m secret number ip is e =
    let nonce = to_bytes nonce_bytes number in
    let plain = m.encode_text ip in
    let raw = nonce ++ xor_bytes plain (keystream m secret nonce (length plain)) in
    let bytes : IsBytes raw = append-IsBytes nonce _ (to_bytes-IsBytes nonce_bytes number) (
      xor_bytes-IsBytes plain _ (is.text ip e)
        (keystream-IsBytes m is secret nonce (length plain))) in
    rw (decode_unpadded-encode raw bytes)
      (decrypt_raw-encrypted m is secret nonce ip (length-to_bytes nonce_bytes number) e)

-- The operations of the store over this digest and encryption.
pub codec_of : Machine → List ℕ → (String → String) → Codec
codec_of m secret strip = record {
  strip = strip;
  normalize_ip = m.normalize_ip;
  cipher_of = cipher_ip m;
  encrypt_ip = encrypt_ip m secret;
}

same_digest :
    (m : Machine) (xs ys : List ℕ)
    → IsMachine m
    → rstrip_padding (encode (m.sha256 xs)) ≡ rstrip_padding (encode (m.sha256 ys))
    → some (m.sha256 xs) ≡ some (m.sha256 ys)
same_digest m xs ys is e =
    sym (decode_unpadded-encode (m.sha256 xs) (is.digest xs))
    ∙ ap decode_unpadded e
    ∙ decode_unpadded-encode (m.sha256 ys) (is.digest ys)

-- The hashes of two normal forms are different.
abbrev pub TellsApart : Machine → Type 0
TellsApart m =
    (a : String) (b : String)
    → m.normalize_ip a ≡ some a
    → m.normalize_ip b ≡ some b
    → m.sha256 (m.encode_text ("rdp-proxy:whitelist:v2|" <> a))
      ≡ m.sha256 (m.encode_text ("rdp-proxy:whitelist:v2|" <> b))
    → a ≡ b

pub same_cipher :
    (m : Machine) (a b : String)
    → IsMachine m
    → TellsApart m
    → m.normalize_ip a ≡ some a
    → m.normalize_ip b ≡ some b
    → cipher_ip m a ≡ cipher_ip m b
    → a ≡ b
unfolding cipher_ip
same_cipher m a b is apart na nb e =
    let hashed = λ (t : String). m.encode_text ("rdp-proxy:whitelist:v2|" <> t) in
    ground (arith, apart a b na nb, same_digest m (hashed a) (hashed b) is e)

-- The digest and the encryption meet what the theorems on the store ask of them, if no two addresses share a
-- SHA-256.
pub codec_of-IsCodec :
    (m : Machine) (secret : List ℕ) (strip : String → String)
    → IsMachine m
    → TellsApart m
    → IsCodec (codec_of m secret strip)
unfolding codec_of
codec_of-IsCodec m secret strip is apart = record {
  normal = is.normal;
  one_cipher = λ a b na nb e. same_cipher m a b is apart na nb e;
}
