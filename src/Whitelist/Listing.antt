-- ===== src/Whitelist/Listing.antt =====
-- rdp_proxy/whitelist.py: the entries, and the history of the operations.
use rdp_on_demand_proxy_serv.Base.{
  ℕ, ◌≡◌, refl, ap, ◌∙◌, inl, inr, String, Bool, true, false, ◌&&◌, ◌||◌, Option, none, some, List,
  [], ◌∷◌, arith, not, if◌then◌else◌, ◌==◌, eq_iff, Bool-cases, Option-cases,
}
use rdp_on_demand_proxy_serv.Base.Dict.{Dict, get, get-put, get-pop}
use rdp_on_demand_proxy_serv.Whitelist.{
  Codec, Entry, Store, refresh, persist, is_some, contains, contains_cipher, add_found,
  add_normalized, add_ip, ingest_text, delete_found, delete_ip, delete_entry, record_rejected_ip,
  new_entry, filled_entry,
}

-- A normalized address is its own normal form, and two addresses have two digests.
pub record IsCodec (k : Codec) : Type 0 where
  pub normal : (t : String) (ip : String) → k.normalize_ip t ≡ some ip → k.normalize_ip ip ≡ some ip
  pub one_cipher :
      (a : String) (b : String)
      → k.normalize_ip a ≡ some a
      → k.normalize_ip b ≡ some b
      → k.cipher_of a ≡ k.cipher_of b
      → a ≡ b

-- The operations that can change the store, with the time and the nonce where they need them.
pub data Op : Type 0 where
  adds : ℕ → ℕ → String → String → Op
  ingests : ℕ → ℕ → String → Op
  deletes : String → Op
  deletes_entry : String → Op
  rejects : ℕ → String → String → String → Op

unfoldable pub step : Codec → Store → Op → Store
step k s (adds now nonce ip source) = (add_ip k s none now nonce ip source).0
step k s (ingests now nonce text) = (ingest_text k s none now nonce text).0
step k s (deletes ip) = (delete_ip k s none ip).0
step k s (deletes_entry identifier) = (delete_entry k s none identifier).0
step k s (rejects now ip geo target) = record_rejected_ip k s none now ip geo target

unfoldable pub run : Codec → Store → List Op → Store
run k s [] = s
run k s (op ∷ ops) = run k (step k s op) ops

-- The text is an address whose normal form is `ip`.
abbrev pub reads_as : Codec → String → String → Bool
reads_as k text ip = elim (k.normalize_ip text) [ none ↦ false | some n ↦ n == ip ]

-- The set of addresses by its definition: what an operation adds to it and takes from it.
abbrev pub listed_after : Codec → Op → String → Bool → Bool
listed_after k (adds now nonce text source) ip before = reads_as k text ip || before
listed_after k (ingests now nonce text) ip before =
    (not (k.strip text == "") && reads_as k (k.strip text) ip) || before
listed_after k (deletes text) ip before = not (reads_as k text ip) && before
listed_after k (deletes_entry text) ip before =
    if k.strip text == "" then before else elim (k.normalize_ip (k.strip text)) [
      | none ↦ not (k.strip text == k.cipher_of ip) && before
      | some n ↦ not (n == ip) && before
    ]
listed_after k (rejects now text geo target) ip before = before

abbrev pub listed : Codec → List Op → String → Bool → Bool
listed k [] ip before = before
listed k (op ∷ ops) ip before = listed k ops ip (listed_after k op ip before)

-- The address has an entry.
abbrev pub has : Codec → Store → String → Bool
has k s ip = is_some (get s.entries (k.cipher_of ip))

same_cipher :
    (k : Codec) (a : String) (ip : String)
    → IsCodec k
    → k.normalize_ip a ≡ some a
    → k.normalize_ip ip ≡ some ip
    → (k.cipher_of a == k.cipher_of ip) ≡ (a == ip)
same_cipher k a ip codec na ni =
    ground
      (arith, eq_iff (k.cipher_of a) (k.cipher_of ip), eq_iff a ip, codec.one_cipher a ip na ni)

add_found-has :
    (k : Codec) (s : Store) (now : ℕ) (nonce : ℕ) (a : String) (source : String) (ip : String)
    (found : Option Entry)
    → get s.entries (k.cipher_of a) ≡ found
    → has k (add_found k s now nonce a source found).0 ip
      ≡ ((k.cipher_of a == k.cipher_of ip) || has k s ip)
unfolding add_found persist
add_found-has k s now nonce a source ip none e =
    ground
      (arith, get-put s.entries (k.cipher_of a) (k.cipher_of ip) (new_entry k now nonce a source))
add_found-has k s now nonce a source ip (some v) e = ground (
  arith,
  e,
  eq_iff (k.cipher_of a) (k.cipher_of ip),
  get-put s.entries (k.cipher_of a) (k.cipher_of ip) (filled_entry k now nonce a source v),
)

delete_found-has :
    (k : Codec) (s : Store) (cipher : String) (a : String) (ip : String) (found : Option Entry)
    → get s.entries cipher ≡ found
    → has k (delete_found s cipher a found).0 ip ≡ (not (cipher == k.cipher_of ip) && has k s ip)
unfolding delete_found persist
delete_found-has k s cipher a ip none e = ground (arith, e, eq_iff cipher (k.cipher_of ip))
delete_found-has k s cipher a ip (some v) e =
    ground (arith, get-pop s.entries cipher (k.cipher_of ip))

add_ip-has :
    (k : Codec) (s : Store) (now : ℕ) (nonce : ℕ) (text : String) (source : String) (ip : String)
    → IsCodec k
    → k.normalize_ip ip ≡ some ip
    → has k (add_ip k s none now nonce text source).0 ip ≡ (reads_as k text ip || has k s ip)
unfolding add_ip add_normalized refresh
add_ip-has k s now nonce text source ip codec ni = elim (Option-cases (k.normalize_ip text)) [
  | inl e ↦ ground (arith, e)
  | inr (a, e) ↦ ground (
    arith,
    e,
    add_found-has k s now nonce a source ip (get s.entries (k.cipher_of a)) refl,
    same_cipher k a ip codec (codec.normal text a e) ni,
  )
]

ingest_text-has :
    (k : Codec) (s : Store) (now : ℕ) (nonce : ℕ) (text : String) (ip : String)
    → IsCodec k
    → k.normalize_ip ip ≡ some ip
    → has k (ingest_text k s none now nonce text).0 ip
      ≡ ((not (k.strip text == "") && reads_as k (k.strip text) ip) || has k s ip)
unfolding ingest_text
ingest_text-has k s now nonce text ip codec ni = elim (Bool-cases (k.strip text == "")) [
  | inl e ↦ ground (arith, e)
  | inr e ↦ elim (Option-cases (k.normalize_ip (k.strip text))) [
    | inl bad ↦ ground (arith, e, bad)
    | inr (a, good) ↦ ground (
      arith,
      e,
      good,
      add_ip-has k s now nonce a "im" ip codec ni,
      codec.normal (k.strip text) a good,
    )
  ]
]

delete_ip-has :
    (k : Codec) (s : Store) (text : String) (ip : String)
    → IsCodec k
    → k.normalize_ip ip ≡ some ip
    → has k (delete_ip k s none text).0 ip ≡ (not (reads_as k text ip) && has k s ip)
unfolding delete_ip refresh
delete_ip-has k s text ip codec ni = elim (Option-cases (k.normalize_ip text)) [
  | inl e ↦ ground (arith, e)
  | inr (a, e) ↦ ground (
    arith,
    e,
    delete_found-has k s (k.cipher_of a) a ip (get s.entries (k.cipher_of a)) refl,
    same_cipher k a ip codec (codec.normal text a e) ni,
  )
]

delete_entry-has :
    (k : Codec) (s : Store) (text : String) (ip : String)
    → IsCodec k
    → k.normalize_ip ip ≡ some ip
    → has k (delete_entry k s none text).0 ip ≡ listed_after k (deletes_entry text) ip (has k s ip)
unfolding delete_entry refresh
delete_entry-has k s text ip codec ni = elim (Bool-cases (k.strip text == "")) [
  | inl e ↦ ground (arith, e)
  | inr e ↦ elim (Option-cases (k.normalize_ip (k.strip text))) [
    | inl bad ↦ ground (
      arith,
      e,
      bad,
      delete_found-has k s (k.strip text) "" ip (get s.entries (k.strip text)) refl,
    )
    | inr (a, good) ↦
        ground (arith, e, good, delete_ip-has k s a ip codec ni, codec.normal (k.strip text) a good)
  ]
]

record_rejected_ip-entries :
    (k : Codec) (s : Store) (now : ℕ) (text : String) (geo : String) (target : String)
    → (record_rejected_ip k s none now text geo target).entries ≡ s.entries
unfolding record_rejected_ip refresh persist
record_rejected_ip-entries k s now text geo target = elim (Option-cases (k.normalize_ip text)) [
  | inl e ↦ ground (arith, e)
  | inr (a, e) ↦ ground (arith, e)
]

step-has :
    (k : Codec) (s : Store) (op : Op) (ip : String)
    → IsCodec k
    → k.normalize_ip ip ≡ some ip
    → has k (step k s op) ip ≡ listed_after k op ip (has k s ip)
unfolding step
step-has k s (adds now nonce text source) ip codec ni =
    add_ip-has k s now nonce text source ip codec ni
step-has k s (ingests now nonce text) ip codec ni = ingest_text-has k s now nonce text ip codec ni
step-has k s (deletes text) ip codec ni = delete_ip-has k s text ip codec ni
step-has k s (deletes_entry text) ip codec ni = delete_entry-has k s text ip codec ni
step-has k s (rejects now text geo target) ip codec ni =
    ap (λ (d : Dict Entry). is_some (get d (k.cipher_of ip)))
      (record_rejected_ip-entries k s now text geo target)

pub run-has :
    (k : Codec) (s : Store) (ops : List Op) (ip : String)
    → IsCodec k
    → k.normalize_ip ip ≡ some ip
    → has k (run k s ops) ip ≡ listed k ops ip (has k s ip)
unfolding run
run-has k s [] ip codec ni = refl
run-has k s (op ∷ ops) ip codec ni =
    run-has k (step k s op) ops ip codec ni
    ∙ ap (λ b. listed k ops ip b) (step-has k s op ip codec ni)

step-enabled : (k : Codec) (s : Store) (op : Op) → (step k s op).enabled ≡ s.enabled
unfolding step add_ip add_normalized add_found ingest_text delete_ip delete_found delete_entry
    record_rejected_ip persist refresh
step-enabled k s (adds now nonce text source) = ground arith
step-enabled k s op = ground arith

pub run-enabled : (k : Codec) (s : Store) (ops : List Op) → (run k s ops).enabled ≡ s.enabled
unfolding run
run-enabled k s [] = refl
run-enabled k s (op ∷ ops) = run-enabled k (step k s op) ops ∙ step-enabled k s op

-- An enabled whitelist whose file is not changed from outside lets an address in, in any spelling, exactly
-- if the last of its operations that put the address in or took it out put it in, or, where there was
-- none, if it had the address's entry at the start. Normal forms are normal, and no two
-- addresses share a digest.
pub contains_lem :
    (k : Codec) (s : Store) (ops : List Op) (text : String) (ip : String)
    → IsCodec k
    → k.normalize_ip text ≡ some ip
    → s.enabled ≡ true
    → (contains k (run k s ops) none text).1 ≡ some (listed k ops ip (has k s ip))
unfolding contains contains_cipher refresh
contains_lem k s ops text ip codec e on =
    let there = run-has k s ops ip codec (codec.normal text ip e) in
    let still = run-enabled k s ops ∙ on in simp (still, e) (ap (λ b. some b) there)
