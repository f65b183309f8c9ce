-- ===== src/Whitelist/File/Keeps.antt =====
-- rdp_proxy/whitelist.py: the document of a store after any operations.
use rdp_on_demand_proxy_serv.Base.{
  ℕ, ◌≡◌, refl, sym, String, false, Option, none, some, List, [], ◌∷◌, ◌==◌, arith, All, inl, inr,
  Bool-cases, Option-cases,
}
use rdp_on_demand_proxy_serv.Base.Dict.{Dict, get, pop, get-pop}
use rdp_on_demand_proxy_serv.Base.Count.{Every, put-Every}
use rdp_on_demand_proxy_serv.Whitelist.{
  Entry, Rejection, Content, Store, refresh, persist, add_found, add_normalized, add_ip,
  ingest_text, delete_found, delete_ip, delete_entry, record_rejected_ip, new_entry, filled_entry,
  seen_again,
}
use rdp_on_demand_proxy_serv.Whitelist.Listing.{
  Op, adds, ingests, deletes, deletes_entry, rejects, step, run,
}
use rdp_on_demand_proxy_serv.Whitelist.File.{Reader}
use rdp_on_demand_proxy_serv.Whitelist.File.Payload.{decode_payload, serialize_payload}
use rdp_on_demand_proxy_serv.Whitelist.File.Stored.{
  IsEntry, IsRejection, IsStored, reread, decode_payload-serialize_payload,
}

-- A normal form is normal, is read back from its encryption, and neither it nor its digest or encryption
-- is empty or has space at its ends.
pub record IsReader (r : Reader) : Type 0 where
  pub normal :
      (t : String) (ip : String)
      → r.codec.normalize_ip t ≡ some ip
      → r.codec.normalize_ip ip ≡ some ip
  pub ip_stripped :
      (ip : String)
      → r.codec.normalize_ip ip ≡ some ip
      → (r.codec.strip ip ≡ ip) × ((ip == "") ≡ false)
  pub cipher_stripped :
      (ip : String)
      → r.codec.normalize_ip ip ≡ some ip
      → (r.codec.strip (r.codec.cipher_of ip) ≡ r.codec.cipher_of ip)
        × ((r.codec.cipher_of ip == "") ≡ false)
  pub value_stripped :
      (seed : ℕ) (ip : String)
      → r.codec.normalize_ip ip ≡ some ip
      → (r.codec.strip (r.codec.encrypt_ip seed ip) ≡ r.codec.encrypt_ip seed ip)
        × ((r.codec.encrypt_ip seed ip == "") ≡ false)
  pub decrypted :
      (seed : ℕ) (ip : String)
      → r.codec.normalize_ip ip ≡ some ip
      → r.decrypt_ip (r.codec.encrypt_ip seed ip) ≡ some ip
  pub im_stripped : r.codec.strip "im" ≡ "im"

-- The texts that the caller gives have no space at their ends.
abbrev pub Stripped : Reader → Op → Type 0
Stripped r (adds now seed ip source) = r.codec.strip source ≡ source
Stripped r (ingests now seed t) = Unit
Stripped r (deletes ip) = Unit
Stripped r (deletes_entry t) = Unit
Stripped r (rejects now ip geo target) = (r.codec.strip geo ≡ geo) × (r.codec.strip target ≡ target)

abbrev pub content_of : Store → Content
content_of s = record { entries = s.entries; rejected = s.rejected }

pop-Every {κ} :
    {V : Type 0} (P : String → V → Type κ) (d : Dict V) (k : String) → Every P d → Every P (pop d k)
pop-Every P d k all j v h = all j v (ground (arith, h, get-pop d k j))

module _ (r : Reader) (is : IsReader r) where
  full-IsEntry :
      (seed : ℕ) (ip : String) (source : String) (added_at : ℕ)
      → r.codec.normalize_ip ip ≡ some ip
      → r.codec.strip source ≡ source
      → IsEntry r (r.codec.cipher_of ip) (record {
        cipher = r.codec.cipher_of ip;
        ip = ip;
        value = r.codec.encrypt_ip seed ip;
        added_at = added_at;
        source = source;
        legacy = false;
      })
  full-IsEntry seed ip source added_at normal stripped = record {
    named = refl;
    key_stripped = (is.cipher_stripped ip normal).0;
    key_there = (is.cipher_stripped ip normal).1;
    value_stripped = (is.value_stripped seed ip normal).0;
    source_stripped = stripped;
    address = simp ((is.value_stripped seed ip normal).1, is.decrypted seed ip normal) refl;
    marked = sym (is.ip_stripped ip normal).1;
  }

  filled-IsEntry :
      (now seed : ℕ) (ip : String) (source : String) (e : Entry)
      → r.codec.normalize_ip ip ≡ some ip
      → r.codec.strip source ≡ source
      → IsEntry r (r.codec.cipher_of ip) e
      → IsEntry r (r.codec.cipher_of ip) (filled_entry r.codec now seed ip source e)
  filled-IsEntry now seed ip source e normal stripped old = record {
    named = old.named;
    key_stripped = old.key_stripped;
    key_there = old.key_there;
    value_stripped = (is.value_stripped seed ip normal).0;
    source_stripped = elim (Bool-cases (source == "")) [
      | inl h ↦ rw h old.source_stripped
      | inr h ↦ rw h stripped
    ];
    address = simp ((is.value_stripped seed ip normal).1, is.decrypted seed ip normal) refl;
    marked = sym (is.ip_stripped ip normal).1;
  }

  add_found-IsStored :
      (s : Store) (now seed : ℕ) (ip : String) (source : String) (found : Option Entry)
      → get s.entries (r.codec.cipher_of ip) ≡ found
      → r.codec.normalize_ip ip ≡ some ip
      → r.codec.strip source ≡ source
      → IsStored r (content_of s)
      → IsStored r (content_of (add_found r.codec s now seed ip source found).0)
  unfolding add_found persist
  add_found-IsStored s now seed ip source none e normal stripped st = record {
    entries_stored =
        put-Every (IsEntry r) s.entries (r.codec.cipher_of ip)
          (new_entry r.codec now seed ip source) st.entries_stored
          (full-IsEntry seed ip source now normal stripped);
    rejected_stored = pop-Every (IsRejection r) s.rejected ip st.rejected_stored;
  }
  add_found-IsStored s now seed ip source (some v) e normal stripped st =
      elim (Bool-cases v.legacy) [
        | inl h ↦
            let filled =
              put-Every (IsEntry r) s.entries (r.codec.cipher_of ip)
                (filled_entry r.codec now seed ip source v) st.entries_stored
                (filled-IsEntry now seed ip source v normal stripped
                  (st.entries_stored (r.codec.cipher_of ip) v e)) in
            elim (Bool-cases s.writable) [
              | inl on ↦
                  rw (h, on)
                    (record {
                      entries_stored = filled;
                      rejected_stored = pop-Every (IsRejection r) s.rejected ip st.rejected_stored;
                    })
              | inr off ↦
                  rw (h, off)
                    (record { entries_stored = filled; rejected_stored = st.rejected_stored })
            ]
        | inr h ↦ rw h (record {
          entries_stored = st.entries_stored;
          rejected_stored = pop-Every (IsRejection r) s.rejected ip st.rejected_stored;
        })
      ]

  add_ip-IsStored :
      (s : Store) (now seed : ℕ) (t : String) (source : String)
      → r.codec.strip source ≡ source
      → IsStored r (content_of s)
      → IsStored r (content_of (add_ip r.codec s none now seed t source).0)
  unfolding add_ip add_normalized refresh
  add_ip-IsStored s now seed t source stripped st = elim (Option-cases (r.codec.normalize_ip t)) [
    | inl e ↦ rw (e, add_ip) st
    | inr (ip, e) ↦
        rw (e, add_ip)
          (add_found-IsStored s now seed ip source (get s.entries (r.codec.cipher_of ip)) refl
            (is.normal t ip e) stripped st)
  ]

  ingest_text-IsStored :
      (s : Store) (now seed : ℕ) (t : String)
      → IsStored r (content_of s)
      → IsStored r (content_of (ingest_text r.codec s none now seed t).0)
  unfolding ingest_text
  ingest_text-IsStored s now seed t st = elim (Bool-cases (r.codec.strip t == "")) [
    | inl e ↦ rw e st
    | inr e ↦ elim (Option-cases (r.codec.normalize_ip (r.codec.strip t))) [
      | inl bad ↦ rw (e, bad) st
      | inr (ip, good) ↦ rw (e, good) (add_ip-IsStored s now seed ip "im" is.im_stripped st)
    ]
  ]

  delete_found-IsStored :
      (s : Store) (cipher : String) (ip : String) (found : Option Entry)
      → IsStored r (content_of s)
      → IsStored r (content_of (delete_found s cipher ip found).0)
  unfolding delete_found persist
  delete_found-IsStored s cipher ip none st = st
  delete_found-IsStored s cipher ip (some e) st = record {
    entries_stored = pop-Every (IsEntry r) s.entries cipher st.entries_stored;
    rejected_stored = st.rejected_stored;
  }

  delete_ip-IsStored :
      (s : Store) (t : String)
      → IsStored r (content_of s)
      → IsStored r (content_of (delete_ip r.codec s none t).0)
  unfolding delete_ip refresh
  delete_ip-IsStored s t st = elim (Option-cases (r.codec.normalize_ip t)) [
    | inl e ↦ rw (e, delete_ip) st
    | inr (ip, e) ↦ rw (e, delete_ip) (delete_found-IsStored s (r.codec.cipher_of ip) ip _ st)
  ]

  delete_entry-IsStored :
      (s : Store) (t : String)
      → IsStored r (content_of s)
      → IsStored r (content_of (delete_entry r.codec s none t).0)
  unfolding delete_entry refresh
  delete_entry-IsStored s t st = elim (Bool-cases (r.codec.strip t == "")) [
    | inl e ↦ rw e st
    | inr e ↦ elim (Option-cases (r.codec.normalize_ip (r.codec.strip t))) [
      | inl bad ↦ rw (e, bad) (delete_found-IsStored s (r.codec.strip t) "" _ st)
      | inr (ip, good) ↦ rw (e, good) (delete_ip-IsStored s ip st)
    ]
  ]

  seen_again-IsRejection :
      (s : Store) (now : ℕ) (ip geo target : String) (found : Option Rejection)
      → get s.rejected ip ≡ found
      → r.codec.normalize_ip ip ≡ some ip
      → r.codec.strip geo ≡ geo
      → r.codec.strip target ≡ target
      → IsStored r (content_of s)
      → IsRejection r ip (seen_again found now ip geo target)
  seen_again-IsRejection s now ip geo target none e normal g t st = record {
    named = refl;
    key_stripped = (is.ip_stripped ip normal).0;
    key_there = (is.ip_stripped ip normal).1;
    key_normal = normal;
    geo_stripped = g;
    target_stripped = t;
    counted = refl;
  }
  seen_again-IsRejection s now ip geo target (some j) e normal g t st = record {
    named = (st.rejected_stored ip j e).named;
    key_stripped = (is.ip_stripped ip normal).0;
    key_there = (is.ip_stripped ip normal).1;
    key_normal = normal;
    geo_stripped = g;
    target_stripped = t;
    counted = ground arith;
  }

  record_rejected_ip-IsStored :
      (s : Store) (now : ℕ) (t geo target : String)
      → r.codec.strip geo ≡ geo
      → r.codec.strip target ≡ target
      → IsStored r (content_of s)
      → IsStored r (content_of (record_rejected_ip r.codec s none now t geo target))
  unfolding record_rejected_ip refresh persist
  record_rejected_ip-IsStored s now t geo target g h st =
      elim (Option-cases (r.codec.normalize_ip t)) [
        | inl e ↦ rw (e, record_rejected_ip) st
        | inr (ip, e) ↦
            rw (e, record_rejected_ip)
              (record {
                entries_stored = st.entries_stored;
                rejected_stored =
                    put-Every (IsRejection r) s.rejected ip
                      (seen_again (get s.rejected ip) now ip geo target) st.rejected_stored
                      (seen_again-IsRejection s now ip geo target (get s.rejected ip) refl
                        (is.normal t ip e) g h st);
              })
      ]

  step-IsStored :
      (s : Store) (op : Op)
      → Stripped r op
      → IsStored r (content_of s)
      → IsStored r (content_of (step r.codec s op))
  unfolding step
  step-IsStored s (adds now seed t source) h st = add_ip-IsStored s now seed t source h st
  step-IsStored s (ingests now seed t) h st = ingest_text-IsStored s now seed t st
  step-IsStored s (deletes t) h st = delete_ip-IsStored s t st
  step-IsStored s (deletes_entry t) h st = delete_entry-IsStored s t st
  step-IsStored s (rejects now t geo target) h st =
      record_rejected_ip-IsStored s now t geo target h.0 h.1 st

  pub run-IsStored :
      (s : Store) (ops : List Op)
      → All (Stripped r) ops
      → IsStored r (content_of s)
      → IsStored r (content_of (run r.codec s ops))
  unfolding run
  run-IsStored s [] h st = st
  run-IsStored s (op ∷ ops) h st =
      run-IsStored (step r.codec s op) ops h.1 (step-IsStored s op h.0 st)

-- After any operations whose texts have no space at their ends, from a store whose entries and rejections
-- are such as the document keeps (the empty store is one), the document that is written can be read
-- without an error, and what is read has the same entry under every digest and the same rejection under
-- every address, all fields included, although both lists are written in an order of their own and neither
-- the address nor the mark of an older entry is written. Assumed of addresses, digests and encryption is that
-- they have no space at their ends, and that an address is read back from its encryption.
pub run_reads_back :
    (r : Reader) (s : Store) (ops : List Op) (random : ℕ → ℕ)
    → IsReader r
    → All (Stripped r) ops
    → IsStored r (content_of s)
    → let kept = content_of (run r.codec s ops) in
      (again : Content) × (decode_payload r random (serialize_payload kept) ≡ some again)
      × ((key : String)
          → (get again.entries key ≡ get kept.entries key)
            × (get again.rejected key ≡ get kept.rejected key))
run_reads_back r s ops random is stripped st =
    let kept = content_of (run r.codec s ops) in
    let back = λ (key : String).
      decode_payload-serialize_payload r random kept key (run-IsStored r is s ops stripped st) in
    (reread kept, (back "").0, λ key. ((back key).1, (back key).2))
