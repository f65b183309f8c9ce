-- ===== src/Whitelist/Cipher/Tests.antt =====
-- The digest and the encryption over a small hash.
use rdp_on_demand_proxy_serv.Base.{
  ℕ, zero, suc, ◌≡◌, ◌≤◌, refl, subst, String, none, some, List, [], ◌∷◌, nat_eq, if◌then◌else◌,
  ◌==◌, length, arith, inl, inr, Bool-cases, ◌⊎◌,
}
use Prim.Native.Nat.{◌%◌}
use rdp_on_demand_proxy_serv.Base.Text.{codes}
use rdp_on_demand_proxy_serv.Base.Bits.{IsBytes}
use rdp_on_demand_proxy_serv.Whitelist.Cipher.{Machine, encrypt_ip, decrypt_ip}
use rdp_on_demand_proxy_serv.Whitelist.Cipher.Laws.{IsMachine, decrypt_ip-encrypt_ip}

abbrev copies : ℕ → ℕ → List ℕ
copies zero b = []
copies (suc n) b = b ∷ copies n b

-- The hash has the length in each byte, and there are two addresses.
abbrev machine : Machine
machine = record {
  sha256 = λ xs. copies 32 (length xs % 256);
  encode_text = codes;
  decode_text = λ bs. if nat_eq (length bs) 3 then some "::1" else some "10.0.0.7";
  normalize_ip = λ t.
      if t == "::1"
      then some "::1"
      else if t == " 10.0.0.7"
      then some "10.0.0.7"
      else if t == "10.0.0.7"
      then some "10.0.0.7"
      else none;
}

two_addresses :
    (t : String) (ip : String)
    → machine.normalize_ip t ≡ some ip
    → (◌≡◌ {A = String} "::1" ip) ⊎ (◌≡◌ {A = String} "10.0.0.7" ip)
two_addresses t ip h = elim (Bool-cases (t == "::1")) [
  | inl a ↦ inl (ground (arith, h, a))
  | inr a ↦ elim (Bool-cases (t == " 10.0.0.7")) [
    | inl b ↦ inr (ground (arith, h, a, b))
    | inr b ↦ elim (Bool-cases (t == "10.0.0.7")) [
      | inl c ↦ inr (ground (arith, h, a, b, c))
      | inr c ↦ absurd (ground (arith, h, a, b, c))
    ]
  ]
]

holds_of_both :
    (P : String → Type 0) (t : String) (ip : String)
    → machine.normalize_ip t ≡ some ip
    → P "::1"
    → P "10.0.0.7"
    → P ip
holds_of_both P t ip h p q = elim (two_addresses t ip h) [
  | inl e ↦ subst P e p
  | inr e ↦ subst P e q
]

copies-IsBytes : (n : ℕ) (b : ℕ) → IsBytes (copies n (b % 256))
copies-IsBytes zero b = tt
copies-IsBytes (suc n) b = (omega arith, copies-IsBytes n b)

machine-IsMachine : IsMachine machine
machine-IsMachine = record {
  digest = λ xs. copies-IsBytes 32 (length xs);
  digest_size = λ xs. refl;
  text = λ ip h. holds_of_both (λ t. IsBytes (codes t)) ip ip h (omega arith) (omega arith);
  text_back = λ ip h. holds_of_both (λ t. machine.decode_text (codes t) ≡ some t) ip ip h refl refl;
  normal = λ t ip h. holds_of_both (λ n. machine.normalize_ip n ≡ some n) t ip h refl refl;
  nonempty = λ t ip h. holds_of_both (λ n. 1 ≤ length (codes n)) t ip h (omega arith) (omega arith);
}

decrypt_ip-encrypt_ip_example :
    decrypt_ip machine (codes "secret") (encrypt_ip machine (codes "secret") 77 "10.0.0.7")
    ≡ some "10.0.0.7"
decrypt_ip-encrypt_ip_example =
    decrypt_ip-encrypt_ip machine (codes "secret") 77 "10.0.0.7" machine-IsMachine refl

-- The nonce stands before the masked bytes.
encrypted : encrypt_ip machine (codes "k") 1 "::1" ≡ "AAAAAAAAAAAAAAAAAAAAAS0tJg"
unfolding encrypt_ip
encrypted = refl

too_short : decrypt_ip machine (codes "k") "AAAAAAAAAAAAAAAAAAAAAQ" ≡ none
unfolding decrypt_ip
too_short = refl
