-- ===== src/Whitelist/File/Payload.antt =====
-- rdp_proxy/whitelist.py: `_decode_payload`, `_decode_rejections` and `_serialize_payload`.
use Prim.Native.Nat.{Ordering}
use Prim.Native.String.{compare}
use rdp_on_demand_proxy_serv.Base.{
  ℕ, ◌+◌, String, Bool, true, false, ◌||◌, ◌&&◌, Option, none, some, List, [], ◌∷◌, map, ltb,
  nat_eq, if◌then◌else◌, ◌==◌,
}
use rdp_on_demand_proxy_serv.Base.Dict.{Dict, put, values}
use rdp_on_demand_proxy_serv.Base.Sort.{sort_desc, sort_by}
use rdp_on_demand_proxy_serv.Whitelist.{Entry, Rejection, Content}
use rdp_on_demand_proxy_serv.Whitelist.File.{
  Json, null, flag, number, text, array, object, last, items, array_of, Fields, end, field, find,
  Reader, str_of, Read, skipped, raises, reads, decode_entry, decode_rejection,
}

-- The loop that writes what each item gives under its key, none where it raises.
unfoldable pub decode_list {ℓ} :
    {V : Type ℓ} → (Json → Read V) → (V → String) → Dict V → List Json → Option (Dict V)
decode_list decode key d [] = some d
decode_list decode key d (j ∷ js) = elim (decode j) [
  | skipped ↦ decode_list decode key d js
  | raises ↦ none
  | reads v ↦ decode_list decode key (put d (key v) v) js
]

abbrev pub cipher_key : Entry → String
cipher_key e = e.cipher

abbrev pub ip_key : Rejection → String
ip_key j = j.ip

unfoldable pub decode_rejections : Reader → Json → Option (Dict Rejection)
unfolding decode_list decode_rejection
decode_rejections r (array js) = decode_list (decode_rejection r) ip_key [] (items js)
decode_rejections r other = some []

-- An item of the older lists, which hold addresses or digests. The number is that of `os.urandom`.
abbrev pub legacy_entry : Reader → ℕ → String → Option String → Entry
legacy_entry r seed t none = record {
  cipher = t;
  ip = "";
  value = "";
  added_at = 0;
  source = "legacy";
  legacy = true;
}
legacy_entry r seed t (some ip) = record {
  cipher = r.codec.cipher_of ip;
  ip = ip;
  value = r.codec.encrypt_ip seed ip;
  added_at = 0;
  source = "legacy";
  legacy = false;
}

-- The loop over an older list, with the numbers that `os.urandom` gives in turn.
unfoldable pub decode_legacy : Reader → (ℕ → ℕ) → ℕ → Dict Entry → List Json → Dict Entry
decode_legacy r random i d [] = d
decode_legacy r random i d (j ∷ js) =
    let t = r.codec.strip (str_of r j) in
    let e = legacy_entry r (random i) t (r.codec.normalize_ip t) in
    decode_legacy r random (i + 1) (if t == "" then d else put d e.cipher e) js

-- A value that is there and is not null.
abbrev pub present : Option Json → Option Json
present none = none
present (some null) = none
present (some (flag b)) = some (flag b)
present (some (number n)) = some (number n)
present (some (text t)) = some (text t)
present (some (array js)) = some (array js)
present (some (object fs)) = some (object fs)

abbrev pub or_else {ℓ} : {A : Type ℓ} → Option A → Option A → Option A
or_else none o = o
or_else (some a) o = some a

abbrev pub legacy_list : Reader → (ℕ → ℕ) → Option Json → Dict Entry
legacy_list r random (some (array js)) = decode_legacy r random 0 [] (items js)
legacy_list r random other = []

-- The entries of a document of the present version, or else those of an older one.
unfoldable pub decode_entries : Reader → (ℕ → ℕ) → Fields → Option Json → Option (Dict Entry)
unfolding decode_list decode_entry decode_legacy find
decode_entries r random fs (some (array js)) = decode_list (decode_entry r) cipher_key [] (items js)
decode_entries r random fs other = some (
    legacy_list r random (
      or_else (present (find fs "cipher_ips"))
        (or_else (present (find fs "ips")) (present (find fs "items")))))

abbrev both : Option (Dict Rejection) → Option (Dict Entry) → Option Content
both none es = none
both (some rs) none = none
both (some rs) (some es) = some (record { entries = es; rejected = rs })

abbrev pub or_array : Option Json → Json
or_array none = array last
or_array (some j) = j

-- none where the code raises.
unfoldable pub decode_payload : Reader → (ℕ → ℕ) → Json → Option Content
unfolding decode_entries decode_rejections decode_legacy
decode_payload r random (object fs) =
    both (decode_rejections r (or_array (find fs "rejected")))
      (decode_entries r random fs (find fs "entries"))
decode_payload r random (array js) =
    some (record { entries = decode_legacy r random 0 [] (items js); rejected = [] })
decode_payload r random null = some (record { entries = []; rejected = [] })
decode_payload r random (flag b) = some (record { entries = []; rejected = [] })
decode_payload r random (number n) = some (record { entries = []; rejected = [] })
decode_payload r random (text t) = some (record { entries = []; rejected = [] })

abbrev pub entry_json : Entry → Json
entry_json e = object (
    field "added_at" (number e.added_at) (
      field "cipher" (text e.cipher)
        (field "source" (text e.source) (field "value" (text e.value) end))))

abbrev pub rejection_json : Rejection → Json
rejection_json j = object (
    field "count" (number j.count) (
      field "geo" (text j.geo) (
        field "ip" (text j.ip)
          (field "last_seen_at" (number j.last_seen_at) (field "target" (text j.target) end)))))

abbrev pub not_above : String → String → Bool
not_above a b = elim (compare a b) [ Ordering.lt ↦ true | Ordering.eq ↦ true | Ordering.gt ↦ false ]

-- The order of (added_at, cipher).
abbrev pub not_later : Entry → Entry → Bool
not_later a b =
    ltb a.added_at b.added_at || (nat_eq a.added_at b.added_at && not_above a.cipher b.cipher)

unfoldable pub serialize_payload : Content → Json
unfolding sort_by sort_desc values
serialize_payload c = object (
    field "encoding" (text "sha256+xor-stream") (
      field "entries" (array (array_of (map entry_json (sort_by not_later (values c.entries))))) (
        field "rejected"
          (array
            (array_of (map rejection_json (sort_desc (λ j. j.last_seen_at) (values c.rejected)))))
          (field "version" (number 2) end))))
