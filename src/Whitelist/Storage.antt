-- ===== src/Whitelist/Storage.antt =====
-- rdp_proxy/whitelist.py: when the store reads its file or secret, and what it lists. What the outside holds
-- is the record `Disk`; an empty file is an empty object.
pub mod Freshness
use rdp_on_demand_proxy_serv.Base.{
  ℕ, suc, ◌+◌, ◌-◌, String, Bool, true, false, ◌||◌, ◌&&◌, Option, none, some, List, [], ◌∷◌, map,
  ltb, leb, nat_eq, not, if◌then◌else◌, ◌==◌, seconds,
}
use rdp_on_demand_proxy_serv.Base.Dict.{Dict, values}
use rdp_on_demand_proxy_serv.Base.Text.{lower, codes}
use rdp_on_demand_proxy_serv.Base.Sort.{sort_by}
use rdp_on_demand_proxy_serv.Whitelist.{Entry, Content}
use rdp_on_demand_proxy_serv.Whitelist.File.{Json, Reader, Fields, end, object}
use rdp_on_demand_proxy_serv.Whitelist.File.Payload.{decode_payload, serialize_payload, not_above}

pub data Mode : Type 0 where
  filesystem k8 : Mode

-- The words that name the secret.
abbrev is_k8_word : String → Bool
is_k8_word w = w == "k8" || w == "kubernetes" || w == "secret"

-- Of a text that has been stripped and put in lower case.
unfoldable pub normalize_mode : String → Mode
normalize_mode word = if is_k8_word word then k8 else filesystem

-- The file's time of change, none if there is no file, and its document, none if it cannot be read or is
-- no JSON; the document of the secret likewise.
pub record Disk : Type 0 where
  pub changed_at : Option ℕ
  pub document : Option Json
  pub secret : Option Json

-- The store with what it remembers of its last reading.
pub record Loader : Type 0 where
  pub mode : Mode
  pub content : Content
  pub last_loaded_mtime : Option ℕ
  pub last_k8_refresh_at : ℕ

abbrev pub k8_refresh_interval : ℕ
k8_refresh_interval = seconds 3

abbrev pub decoded : Reader → (ℕ → ℕ) → Option Json → Option Content
decoded r random none = none
decoded r random (some j) = decode_payload r random j

abbrev pub same_time : Option ℕ → ℕ → Bool
same_time none t = false
same_time (some s) t = nat_eq s t

abbrev loaded_file : Loader → ℕ → Option Content → Loader
loaded_file l t none = l
loaded_file l t (some c) = record l { content = c; last_loaded_mtime = some t }

abbrev loaded_secret : Loader → ℕ → Option Content → Loader
loaded_secret l now none = l
loaded_secret l now (some c) = record l { content = c; last_k8_refresh_at = now }

abbrev refresh_file : Reader → (ℕ → ℕ) → Loader → Disk → Option ℕ → Loader
refresh_file r random l d none = l
refresh_file r random l d (some t) =
    if same_time l.last_loaded_mtime t then l else loaded_file l t (decoded r random d.document)

abbrev refresh_secret : Reader → (ℕ → ℕ) → Loader → Disk → ℕ → Loader
refresh_secret r random l d now =
    if ltb now (l.last_k8_refresh_at + k8_refresh_interval)
    then l
    else loaded_secret l now (decoded r random d.secret)

-- `_refresh_if_needed_locked`
unfoldable pub refresh_if_needed : Reader → (ℕ → ℕ) → Loader → Disk → ℕ → Loader
refresh_if_needed r random l d now = elim l.mode [
  | filesystem ↦ refresh_file r random l d d.changed_at
  | k8 ↦ refresh_secret r random l d now
]

abbrev file_text : Disk → Option Json
file_text d = elim d.changed_at [ none ↦ some (object end) | some t ↦ d.document ]

abbrev first_loaded : Loader → Option ℕ → Option Content → Loader
first_loaded l t none = l
first_loaded l t (some c) = record l { content = c; last_loaded_mtime = t }

-- `_load_from_storage`, of a new store.
unfoldable pub load_from_storage : Reader → (ℕ → ℕ) → Loader → Disk → Loader
load_from_storage r random l d = elim l.mode [
  | filesystem ↦ first_loaded l d.changed_at (decoded r random (file_text d))
  | k8 ↦ first_loaded l none (decoded r random d.secret)
]

-- `_persist_locked`, where the write gives the file the time `t`.
unfoldable pub persist_locked : Loader → Disk → ℕ → Loader × Disk
persist_locked l d t = elim l.mode [
  | filesystem ↦ (
    record l { last_loaded_mtime = some t },
    record d { changed_at = some t; document = some (serialize_payload l.content) },
  )
  | k8 ↦ (
    record l { last_loaded_mtime = d.changed_at },
    record d { secret = some (serialize_payload l.content) },
  )
]

-- An item of `list_entries`, without the text of its time.
pub record Listed : Type 0 where
  pub cipher : String
  pub ip : String
  pub source : String
  pub added_at : ℕ
  pub legacy : Bool

abbrev pub listed_entry : Reader → Entry → Listed
listed_entry r e = record {
  cipher = e.cipher;
  ip = r.codec.strip e.ip;
  source = r.codec.strip e.source;
  added_at = e.added_at;
  legacy = e.legacy;
}

-- The order of (added_at, ip), reversed.
abbrev pub not_earlier : Listed → Listed → Bool
not_earlier a b = ltb b.added_at a.added_at || (nat_eq a.added_at b.added_at && not_above b.ip a.ip)

-- `list_entries`, after its refresh.
unfoldable pub list_entries : Reader → Content → List Listed
unfolding sort_by values
list_entries r c = sort_by not_earlier (map (listed_entry r) (values c.entries))
