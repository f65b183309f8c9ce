-- ===== src/Whitelist/File/Stored.antt =====
-- rdp_proxy/whitelist.py: the store that the document gives back.
use rdp_on_demand_proxy_serv.Base.{
  ℕ, ◌≡◌, refl, sym, ◌∙◌, ap, String, Bool, false, some, List, [], ◌∷◌, map, nat_eq, ◌==◌, arith,
  All, inl, inr, Option-cases,
}
use rdp_on_demand_proxy_serv.Base.Dict.{Dict, get, values, All-values}
use rdp_on_demand_proxy_serv.Base.Count.{Every}
use rdp_on_demand_proxy_serv.Base.Sort.{sort_desc, sort_by, All-sort_desc}
use rdp_on_demand_proxy_serv.Whitelist.{Entry, Rejection, Content, is_some}
use rdp_on_demand_proxy_serv.Whitelist.File.{
  Json, Reader, Read, reads, items, array_of, read_ip, decode_entry, decode_rejection,
}
use rdp_on_demand_proxy_serv.Whitelist.File.Payload.{
  decode_list, decode_payload, serialize_payload, entry_json, rejection_json, cipher_key, ip_key,
  not_later,
}
use rdp_on_demand_proxy_serv.Whitelist.File.Fill.{
  fill, get-fill, decode_list-fill, any, any-sort_desc, any-sort_by, All-sort_by, any-values,
  All-own,
}

-- An entry under its digest, with texts that are stripped, whose address is the one of its value.
pub record IsEntry (r : Reader) (k : String) (e : Entry) : Type 0 where
  pub named : e.cipher ≡ k
  pub key_stripped : r.codec.strip k ≡ k
  pub key_there : (k == "") ≡ false
  pub value_stripped : r.codec.strip e.value ≡ e.value
  pub source_stripped : r.codec.strip e.source ≡ e.source
  pub address : read_ip r e.value ≡ e.ip
  pub marked : e.legacy ≡ (e.ip == "")

-- A rejection under its address, counted at least once.
pub record IsRejection (r : Reader) (k : String) (j : Rejection) : Type 0 where
  pub named : j.ip ≡ k
  pub key_stripped : r.codec.strip k ≡ k
  pub key_there : (k == "") ≡ false
  pub key_normal : r.codec.normalize_ip k ≡ some k
  pub geo_stripped : r.codec.strip j.geo ≡ j.geo
  pub target_stripped : r.codec.strip j.target ≡ j.target
  pub counted : nat_eq j.count 0 ≡ false

pub record IsStored (r : Reader) (c : Content) : Type 0 where
  pub entries_stored : Every (IsEntry r) c.entries
  pub rejected_stored : Every (IsRejection r) c.rejected

module _ (r : Reader) (k : String) where
  decode_entry-entry_json : (e : Entry) → IsEntry r k e → decode_entry r (entry_json e) ≡ reads e
  unfolding decode_entry
  decode_entry-entry_json e is =
      let stripped_key : r.codec.strip e.cipher ≡ e.cipher = simp is.named is.key_stripped in
      let there : (e.cipher == "") ≡ false = simp is.named is.key_there in
      simp (stripped_key, there, is.value_stripped, is.source_stripped, is.address, sym is.marked)
        refl

  decode_rejection-rejection_json :
      (j : Rejection) → IsRejection r k j → decode_rejection r (rejection_json j) ≡ reads j
  unfolding decode_rejection
  decode_rejection-rejection_json j is =
      let stripped_key : r.codec.strip j.ip ≡ j.ip = simp is.named is.key_stripped in
      let there : (j.ip == "") ≡ false = simp is.named is.key_there in
      let normal : r.codec.normalize_ip j.ip ≡ some j.ip = simp is.named is.key_normal in
      simp (stripped_key, there, normal, is.geo_stripped, is.target_stripped, is.counted) refl

items-array_of : (js : List Json) → items (array_of js) ≡ js
items-array_of [] = refl
items-array_of (j ∷ js) = ap (λ (t : List Json). j ∷ t) (items-array_of js)

-- A dict whose values are read back under their keys, from its values in some order.
module _ {V : Type 0} (decode : Json → Read V) (encode : V → Json) (key : V → String)
    (D : Dict V) where
  list-back :
      (xs : List V) (k : String)
      → All (λ x. decode (encode x) ≡ reads x) xs
      → All (λ x. get D (key x) ≡ some x) xs
      → any (λ v. key v == k) xs ≡ is_some (get D k)
      → (decode_list decode key [] (items (array_of (map encode xs))) ≡ some (fill key [] xs))
        × (get (fill key [] xs) k ≡ get D k)
  unfolding get
  list-back xs k back own there = (
    ap (decode_list decode key []) (items-array_of (map encode xs))
        ∙ decode_list-fill decode encode key xs [] back,
    elim (Option-cases (get D k)) [
      | inl e ↦ ground (arith, e, there, get-fill D key xs [] k own)
      | inr (v, e) ↦ ground (arith, e, there, get-fill D key xs [] k own)
    ],
  )

  sorted_desc-back :
      (rank : V → ℕ) (k : String)
      → ((j : String) (v : V) → get D j ≡ some v → (key v ≡ j) × (decode (encode v) ≡ reads v))
      → (decode_list decode key [] (items (array_of (map encode (sort_desc rank (values D)))))
          ≡ some (fill key [] (sort_desc rank (values D))))
        × (get (fill key [] (sort_desc rank (values D))) k ≡ get D k)
  sorted_desc-back rank k is =
      list-back (sort_desc rank (values D)) k
        (All-sort_desc rank (λ x. decode (encode x) ≡ reads x) (values D)
          (All-values (λ x. decode (encode x) ≡ reads x) D λ j v e. (is j v e).1))
        (All-sort_desc rank (λ x. get D (key x) ≡ some x) (values D)
          (All-own D key λ j v e. (is j v e).0))
        (any-sort_desc rank (λ v. key v == k) (values D) ∙ any-values D key k λ j v e. (is j v e).0)

  sorted_by-back :
      (le : V → V → Bool) (k : String)
      → ((j : String) (v : V) → get D j ≡ some v → (key v ≡ j) × (decode (encode v) ≡ reads v))
      → (decode_list decode key [] (items (array_of (map encode (sort_by le (values D)))))
          ≡ some (fill key [] (sort_by le (values D))))
        × (get (fill key [] (sort_by le (values D))) k ≡ get D k)
  sorted_by-back le k is =
      list-back (sort_by le (values D)) k
        (All-sort_by (λ x. decode (encode x) ≡ reads x) le (values D)
          (All-values (λ x. decode (encode x) ≡ reads x) D λ j v e. (is j v e).1))
        (All-sort_by (λ x. get D (key x) ≡ some x) le (values D)
          (All-own D key λ j v e. (is j v e).0))
        (any-sort_by le (λ v. key v == k) (values D) ∙ any-values D key k λ j v e. (is j v e).0)

entry-back :
    (r : Reader) (c : Content) (j : String) (e : Entry)
    → IsStored r c
    → get c.entries j ≡ some e
    → (cipher_key e ≡ j) × (decode_entry r (entry_json e) ≡ reads e)
entry-back r c j e is found =
    let one : IsEntry r j e = is.entries_stored j e found in
    (one.named, decode_entry-entry_json r j e one)

rejection-back :
    (r : Reader) (c : Content) (k : String) (j : Rejection)
    → IsStored r c
    → get c.rejected k ≡ some j
    → (ip_key j ≡ k) × (decode_rejection r (rejection_json j) ≡ reads j)
rejection-back r c k j is found =
    let one : IsRejection r k j = is.rejected_stored k j found in
    (one.named, decode_rejection-rejection_json r k j one)

-- What is read from the document, as it is written: the values in the order of the document.
abbrev pub reread : Content → Content
reread c = record {
  entries = fill cipher_key [] (sort_by not_later (values c.entries));
  rejected = fill ip_key [] (sort_desc (λ j. j.last_seen_at) (values c.rejected));
}

pub decode_payload-serialize_payload :
    (r : Reader) (random : ℕ → ℕ) (c : Content) (k : String)
    → IsStored r c
    → (decode_payload r random (serialize_payload c) ≡ some (reread c))
      × (get (reread c).entries k ≡ get c.entries k)
      × (get (reread c).rejected k ≡ get c.rejected k)
unfolding decode_payload serialize_payload
decode_payload-serialize_payload r random c k is =
    let es =
      sorted_by-back (decode_entry r) entry_json cipher_key c.entries not_later k
        (λ j e found. entry-back r c j e is found) in
    let rs =
      sorted_desc-back (decode_rejection r) rejection_json ip_key c.rejected (λ j. j.last_seen_at) k
        (λ j v found. rejection-back r c j v is found) in
    (rw (es.0, rs.0) refl, es.1, rs.1)
