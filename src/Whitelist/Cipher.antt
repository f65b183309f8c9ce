-- ===== src/Whitelist/Cipher.antt =====
-- rdp_proxy/whitelist.py: the digest and the encryption of an address. SHA-256, UTF-8 and the reading of
-- an address are the record `Machine`.
pub mod Laws
mod Tests
use Prim.Native.Nat.{bit_xor}
use rdp_on_demand_proxy_serv.Base.{
  ℕ, zero, suc, ◌+◌, String, ◌<>◌, Bool, true, false, Option, none, some, List, [], ◌∷◌, ◌++◌, ltb,
  if◌then◌else◌, length, take,
}
use rdp_on_demand_proxy_serv.Base.Bits.{to_bytes}
use rdp_on_demand_proxy_serv.Base.Base64.{encode, rstrip_padding, decode_unpadded}

-- `sha256` is a digest's bytes; `encode_text` and `decode_text` are `str.encode` and `bytes.decode`
-- with UTF-8, none where the bytes raise UnicodeDecodeError; `normalize_ip` gives none for ValueError.
pub record Machine : Type 0 where
  pub sha256 : List ℕ → List ℕ
  pub encode_text : String → List ℕ
  pub decode_text : List ℕ → Option String
  pub normalize_ip : String → Option String

abbrev pub nonce_bytes : ℕ
nonce_bytes = 16

-- Of an address in its normal form.
unfoldable pub cipher_ip : Machine → String → String
unfolding encode rstrip_padding
cipher_ip m ip =
    rstrip_padding (encode (m.sha256 (m.encode_text ("rdp-proxy:whitelist:v2|" <> ip))))

-- The block of a counter, which is below 2 ^ 32.
abbrev pub block : Machine → List ℕ → List ℕ → ℕ → List ℕ
block m secret nonce counter = m.sha256 (secret ++ (b'|' ∷ (nonce ++ (b'|' ∷ to_bytes 4 counter))))

-- The `while` loop of `_keystream`, on fuel.
unfoldable pub keystream_loop : Machine → List ℕ → List ℕ → ℕ → ℕ → ℕ → List ℕ → List ℕ
unfolding to_bytes
keystream_loop m secret nonce zero counter size output = output
keystream_loop m secret nonce (suc fuel) counter size output =
    let more =
      keystream_loop m secret nonce fuel (counter + 1) size
        (output ++ block m secret nonce counter) in
    if ltb (length output) size then more else output

unfoldable pub keystream : Machine → List ℕ → List ℕ → ℕ → List ℕ
unfolding keystream_loop
keystream m secret nonce size = take size (keystream_loop m secret nonce size 0 size [])

-- bytes(a ^ b for a, b in zip(xs, ys))
unfoldable pub xor_bytes : List ℕ → List ℕ → List ℕ
xor_bytes [] ys = []
xor_bytes (x ∷ xs) [] = []
xor_bytes (x ∷ xs) (y ∷ ys) = bit_xor x y ∷ xor_bytes xs ys

-- Of an address in its normal form, with the number whose bytes `os.urandom` gives.
unfoldable pub encrypt_ip : Machine → List ℕ → ℕ → String → String
unfolding keystream xor_bytes to_bytes encode rstrip_padding
encrypt_ip m secret number ip =
    let nonce = to_bytes nonce_bytes number in
    let plain = m.encode_text ip in
    rstrip_padding (encode (nonce ++ xor_bytes plain (keystream m secret nonce (length plain))))

unfoldable pub drop : ℕ → List ℕ → List ℕ
drop zero xs = xs
drop (suc n) [] = []
drop (suc n) (x ∷ xs) = drop n xs

abbrev pub after_decode : Machine → Option String → Option String
after_decode m none = none
after_decode m (some text) = m.normalize_ip text

decrypt_raw : Machine → List ℕ → Option (List ℕ) → Option String
unfolding keystream xor_bytes drop
decrypt_raw m secret none = none
decrypt_raw m secret (some raw) =
    if ltb (length raw) 17
    then none
    else (let cipher = drop nonce_bytes raw in
        after_decode m (
          m.decode_text
            (xor_bytes cipher (keystream m secret (take nonce_bytes raw) (length cipher)))))

-- none where the code raises ValueError.
unfoldable pub decrypt_ip : Machine → List ℕ → String → Option String
unfolding decrypt_raw decode_unpadded
decrypt_ip m secret value = decrypt_raw m secret (decode_unpadded value)
