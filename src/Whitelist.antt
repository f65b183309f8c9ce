-- ===== src/Whitelist.antt =====
-- rdp_proxy/whitelist.py: the store of the whitelist. The parsing of addresses, the digest, the encryption
-- and `str.strip` are the record `Codec`; what a changed file or secret gives is an input, and what
-- is written to it is the field `saved`.
pub mod Cipher
pub mod File
pub mod Storage
pub mod Listing
pub mod Saving
mod Tests
use rdp_on_demand_proxy_serv.Base.{
  ℕ, suc, ◌≡◌, String, Bool, true, false, Option, none, some, List, ltb, leb, not, if◌then◌else◌,
  take, max, map, ◌==◌,
}
use rdp_on_demand_proxy_serv.Base.Dict.{Dict, get, put, pop, values}
use rdp_on_demand_proxy_serv.Base.Sort.{sort_desc}

-- `normalize_ip` gives none where the code raises ValueError; `cipher_of` is the digest of a normalized
-- address; `encrypt_ip` takes its nonce.
pub record Codec : Type 0 where
  pub strip : String → String
  pub normalize_ip : String → Option String
  pub cipher_of : String → String
  pub encrypt_ip : ℕ → String → String

pub record Entry : Type 0 where
  pub cipher : String
  pub ip : String
  pub value : String
  pub added_at : ℕ
  pub source : String
  pub legacy : Bool

pub record Rejection : Type 0 where
  pub ip : String
  pub geo : String
  pub target : String
  pub count : ℕ
  pub last_seen_at : ℕ

-- The content of the file or secret.
pub record Content : Type 0 where
  pub entries : Dict Entry
  pub rejected : Dict Rejection

-- `writable` tells whether a write to the file or secret succeeds; where it does not, `_persist_locked`
-- raises, after the operation has changed the entries in the memory.
pub record Store : Type 0 where
  pub enabled : Bool
  pub writable : Bool
  pub entries : Dict Entry
  pub rejected : Dict Rejection
  pub saved : Content

pub record WhitelistResult : Type 0 where
  pub allowed : Bool
  pub message : String
  pub normalized_ip : String

-- `_refresh_if_needed_locked`, with the new content if there is one.
pub refresh : Store → Option Content → Store
refresh s none = s
refresh s (some c) = record s { entries = c.entries; rejected = c.rejected; saved = c }

-- `_persist_locked`
pub persist : Store → Store
persist s = record s {
  saved = if s.writable then record { entries = s.entries; rejected = s.rejected } else s.saved;
}

-- The answer of an operation behind its write, none where the write raises.
abbrev pub written : Store → WhitelistResult → Option WhitelistResult
written s r = if s.writable then some r else none

abbrev pub is_some {ℓ} : {A : Type ℓ} → Option A → Bool
is_some none = false
is_some (some a) = true

contains_cipher : Store → String → Store × Option Bool
contains_cipher s cipher = (s, some (is_some (get s.entries cipher)))

-- The answer is none where the code raises.
pub contains : Codec → Store → Option Content → String → Store × Option Bool
unfolding refresh contains_cipher
contains k s reload client_ip =
    if not s.enabled then (s, some true) else elim (k.normalize_ip client_ip) [
      | none ↦ (s, none)
      | some ip ↦ contains_cipher (refresh s reload) (k.cipher_of ip)
    ]

abbrev pub new_entry : Codec → ℕ → ℕ → String → String → Entry
new_entry k now nonce ip source = record {
  cipher = k.cipher_of ip;
  ip = ip;
  value = k.encrypt_ip nonce ip;
  added_at = now;
  source = source;
  legacy = false;
}

-- An entry that was read without its address gets it now.
abbrev pub filled_entry : Codec → ℕ → ℕ → String → String → Entry → Entry
filled_entry k now nonce ip source e = record e {
  ip = ip;
  value = k.encrypt_ip nonce ip;
  legacy = false;
  source = if source == "" then e.source else source;
  added_at = if leb e.added_at 0 then now else e.added_at;
}

abbrev pub without_rejection : Store → String → Store
without_rejection s ip = record s { rejected = pop s.rejected ip }

abbrev pub result : Bool → String → String → WhitelistResult
result allowed message ip = record { allowed = allowed; message = message; normalized_ip = ip }

add_found : Codec → Store → ℕ → ℕ → String → String → Option Entry → Store × Option WhitelistResult
unfolding persist
add_found k s now nonce ip source none = (
  persist (
      without_rejection
        (record s { entries = put s.entries (k.cipher_of ip) (new_entry k now nonce ip source) })
        ip),
  written s (result true "saved" ip),
)
add_found k s now nonce ip source (some e) =
    let filled = persist (record s {
      entries = put s.entries (k.cipher_of ip) (filled_entry k now nonce ip source e);
    }) in
    if not e.legacy
    then (without_rejection s ip, some (result true "already present" ip))
    else if s.writable
    then (without_rejection filled ip, some (result true "already present" ip))
    else (filled, none)

-- `add_ip` of an address that has been normalized.
pub add_normalized :
    Codec → Store → Option Content → ℕ → ℕ → String → String → Store × Option WhitelistResult
unfolding add_found refresh
add_normalized k s reload now nonce ip source =
    let r = refresh s reload in add_found k r now nonce ip source (get r.entries (k.cipher_of ip))

-- The result is none where the code raises: ValueError, or what the write raises.
unfoldable pub add_ip :
    Codec → Store → Option Content → ℕ → ℕ → String → String → Store × Option WhitelistResult
unfolding add_normalized
add_ip k s reload now nonce client_ip source = elim (k.normalize_ip client_ip) [
  | none ↦ (s, none)
  | some ip ↦ add_normalized k s reload now nonce ip source
]

abbrev pub not_an_address : WhitelistResult
not_an_address = result false "message is not a valid IPv4 or IPv6 address" ""

pub ingest_text : Codec → Store → Option Content → ℕ → ℕ → String → Store × Option WhitelistResult
unfolding add_ip
ingest_text k s reload now nonce text =
    if k.strip text == ""
    then (s, some (result false "empty message" ""))
    else elim (k.normalize_ip (k.strip text)) [
      | none ↦ (s, some not_an_address)
      | some ip ↦ add_ip k s reload now nonce ip "im"
    ]

delete_found : Store → String → String → Option Entry → Store × Option WhitelistResult
unfolding persist
delete_found s cipher ip none = (s, some (result false "not found" ip))
delete_found s cipher ip (some e) =
    (persist (record s { entries = pop s.entries cipher }), written s (result true "deleted" ip))

abbrev delete_cipher : Store → String → String → Store × Option WhitelistResult
delete_cipher s cipher ip = delete_found s cipher ip (get s.entries cipher)

pub delete_ip : Codec → Store → Option Content → String → Store × Option WhitelistResult
unfolding delete_found refresh
delete_ip k s reload client_ip = elim (k.normalize_ip client_ip) [
  | none ↦ (s, some not_an_address)
  | some ip ↦ delete_cipher (refresh s reload) (k.cipher_of ip) ip
]

-- By its address, or else by its cipher.
pub delete_entry : Codec → Store → Option Content → String → Store × Option WhitelistResult
unfolding delete_ip delete_found refresh
delete_entry k s reload identifier =
    if k.strip identifier == ""
    then (s, some (result false "missing identifier" ""))
    else elim (k.normalize_ip (k.strip identifier)) [
      | none ↦ delete_cipher (refresh s reload) (k.strip identifier) ""
      | some ip ↦ delete_ip k s reload ip
    ]

abbrev pub seen_again : Option Rejection → ℕ → String → String → String → Rejection
seen_again none now ip geo target = record {
  ip = ip;
  geo = geo;
  target = target;
  count = 1;
  last_seen_at = now;
}
seen_again (some r) now ip geo target = record r {
  geo = geo;
  target = target;
  count = suc r.count;
  last_seen_at = now;
}

-- Where the write raises, the call raises with the state that is given here.
pub record_rejected_ip : Codec → Store → Option Content → ℕ → String → String → String → Store
unfolding persist refresh
record_rejected_ip k s reload now client_ip geo target = elim (k.normalize_ip client_ip) [
  | none ↦ s
  | some ip ↦
      let r = refresh s reload in
      persist (record r {
        rejected = put r.rejected ip (seen_again (get r.rejected ip) now ip geo target);
      })
]

pub list_recent_rejections : Store → Option Content → ℕ → Store × List Rejection
unfolding refresh
list_recent_rejections s reload limit =
    let r = refresh s reload in
    (r, take (max 1 limit) (sort_desc (λ x. x.last_seen_at) (values r.rejected)))
