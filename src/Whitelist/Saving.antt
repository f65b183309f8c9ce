-- ===== src/Whitelist/Saving.antt =====
-- rdp_proxy/whitelist.py: what is saved, and the counts of the rejections.
use rdp_on_demand_proxy_serv.Base.{
  ℕ, suc, ◌≡◌, refl, ap, ◌∙◌, inl, inr, String, true, false, ◌&&◌, Option, none, some, List, [],
  ◌∷◌, arith, not, if◌then◌else◌, ◌==◌, eq_iff, eq_refl, Bool-cases, Option-cases,
}
use rdp_on_demand_proxy_serv.Base.Dict.{Dict, get, get-put, get-pop}
use rdp_on_demand_proxy_serv.Whitelist.{
  Codec, Entry, Rejection, Store, refresh, persist, add_found, add_normalized, add_ip, seen_again,
  ingest_text, delete_found, delete_ip, delete_entry, record_rejected_ip,
}
use rdp_on_demand_proxy_serv.Whitelist.Listing.{
  Op, adds, ingests, deletes, deletes_entry, rejects, step, run, reads_as, IsCodec,
}

step_saves :
    (k : Codec) (s : Store) (op : Op)
    → s.writable ≡ true
    → s.saved.entries ≡ s.entries
    → (step k s op).saved.entries ≡ (step k s op).entries
unfolding step add_ip add_normalized add_found ingest_text delete_ip delete_found delete_entry
    record_rejected_ip persist refresh
step_saves k s (adds now nonce text source) on h = ground (arith, on, h)
step_saves k s op on h = ground (arith, on, h)

step-writable : (k : Codec) (s : Store) (op : Op) → (step k s op).writable ≡ s.writable
unfolding step add_ip add_normalized add_found ingest_text delete_ip delete_found delete_entry
    record_rejected_ip persist refresh
step-writable k s (adds now nonce text source) = ground arith
step-writable k s op = ground arith

-- If every write to the file or secret succeeds, nothing is read again from it, and the saved entries are the
-- entries at the start, they are so after any operations that change the store: no change of the allowed
-- addresses stays unsaved.
pub entries_are_saved :
    (k : Codec) (s : Store) (ops : List Op)
    → s.writable ≡ true
    → s.saved.entries ≡ s.entries
    → (run k s ops).saved.entries ≡ (run k s ops).entries
unfolding run
entries_are_saved k s [] on h = h
entries_are_saved k s (op ∷ ops) on h =
    entries_are_saved k (step k s op) ops (step-writable k s op ∙ on) (step_saves k s op on h)

-- Adding an address that has a full entry takes its rejection, if one is saved, out of the memory but not
-- out of what is saved.
pub present_add_not_saved :
    (k : Codec) (s : Store) (now : ℕ) (nonce : ℕ) (text : String) (source : String) (ip : String)
    (e : Entry) (r : Rejection)
    → k.normalize_ip text ≡ some ip
    → get s.entries (k.cipher_of ip) ≡ some e
    → e.legacy ≡ false
    → get s.saved.rejected ip ≡ some r
    → let t = (add_ip k s none now nonce text source).0 in
      (get t.rejected ip ≡ none) × (get t.saved.rejected ip ≡ some r)
unfolding add_ip add_normalized add_found persist refresh
present_add_not_saved k s now nonce text source ip e r reads found full kept = (
  ground (arith, reads, found, full, get-pop s.rejected ip ip, eq_refl ip),
  ground (arith, reads, found, full, kept),
)

-- The rejections of an address since it was last added, by the history.
abbrev pub rejections_after : Codec → Op → String → ℕ → ℕ
rejections_after k (adds now nonce text source) ip before = if reads_as k text ip then 0 else before
rejections_after k (ingests now nonce text) ip before =
    if not (k.strip text == "") && reads_as k (k.strip text) ip then 0 else before
rejections_after k (deletes text) ip before = before
rejections_after k (deletes_entry text) ip before = before
rejections_after k (rejects now text geo target) ip before =
    if reads_as k text ip then suc before else before

abbrev pub rejections : Codec → List Op → String → ℕ → ℕ
rejections k [] ip before = before
rejections k (op ∷ ops) ip before = rejections k ops ip (rejections_after k op ip before)

abbrev count_of : Option Rejection → ℕ
count_of none = 0
count_of (some r) = r.count

abbrev pub rejected_times : Store → String → ℕ
rejected_times s ip = count_of (get s.rejected ip)

add_found-times :
    (k : Codec) (s : Store) (now : ℕ) (nonce : ℕ) (a : String) (source : String) (ip : String)
    (found : Option Entry)
    → s.writable ≡ true
    → rejected_times (add_found k s now nonce a source found).0 ip
      ≡ (if a == ip then 0 else rejected_times s ip)
unfolding add_found persist
add_found-times k s now nonce a source ip none on = ground (arith, on, get-pop s.rejected a ip)
add_found-times k s now nonce a source ip (some e) on = ground (arith, on, get-pop s.rejected a ip)

add_ip-times :
    (k : Codec) (s : Store) (now : ℕ) (nonce : ℕ) (text : String) (source : String) (ip : String)
    → s.writable ≡ true
    → rejected_times (add_ip k s none now nonce text source).0 ip
      ≡ (if reads_as k text ip then 0 else rejected_times s ip)
unfolding add_ip add_normalized refresh
add_ip-times k s now nonce text source ip on = elim (Option-cases (k.normalize_ip text)) [
  | inl e ↦ ground (arith, e)
  | inr (a, e) ↦
      ground
        (arith, e, add_found-times k s now nonce a source ip (get s.entries (k.cipher_of a)) on)
]

ingest_text-times :
    (k : Codec) (s : Store) (now : ℕ) (nonce : ℕ) (text : String) (ip : String)
    → IsCodec k
    → s.writable ≡ true
    → rejected_times (ingest_text k s none now nonce text).0 ip
      ≡ rejections_after k (ingests now nonce text) ip (rejected_times s ip)
unfolding ingest_text
ingest_text-times k s now nonce text ip codec on = elim (Bool-cases (k.strip text == "")) [
  | inl e ↦ ground (arith, e)
  | inr e ↦ elim (Option-cases (k.normalize_ip (k.strip text))) [
    | inl bad ↦ ground (arith, e, bad)
    | inr (a, good) ↦ ground (
      arith,
      e,
      good,
      add_ip-times k s now nonce a "im" ip on,
      codec.normal (k.strip text) a good,
    )
  ]
]

record_rejected_ip-times :
    (k : Codec) (s : Store) (now : ℕ) (text : String) (geo : String) (target : String) (ip : String)
    → rejected_times (record_rejected_ip k s none now text geo target) ip
      ≡ (if reads_as k text ip then suc (rejected_times s ip) else rejected_times s ip)
unfolding record_rejected_ip refresh persist
record_rejected_ip-times k s now text geo target ip = elim (Option-cases (k.normalize_ip text)) [
  | inl e ↦ ground (arith, e)
  | inr (a, e) ↦ ground (
    arith,
    e,
    eq_iff a ip,
    get-put s.rejected a ip (seen_again (get s.rejected a) now a geo target),
  )
]

delete_keeps :
    (k : Codec) (s : Store) (text : String)
    → ((delete_ip k s none text).0.rejected ≡ s.rejected)
      × ((delete_entry k s none text).0.rejected ≡ s.rejected)
unfolding delete_ip delete_found delete_entry persist refresh
delete_keeps k s text = (ground arith, ground arith)

step-times :
    (k : Codec) (s : Store) (op : Op) (ip : String)
    → IsCodec k
    → s.writable ≡ true
    → rejected_times (step k s op) ip ≡ rejections_after k op ip (rejected_times s ip)
unfolding step
step-times k s (adds now nonce text source) ip codec on =
    add_ip-times k s now nonce text source ip on
step-times k s (ingests now nonce text) ip codec on =
    ingest_text-times k s now nonce text ip codec on
step-times k s (deletes text) ip codec on =
    ap (λ (d : Dict Rejection). count_of (get d ip)) ((delete_keeps k s text).0)
step-times k s (deletes_entry text) ip codec on =
    ap (λ (d : Dict Rejection). count_of (get d ip)) ((delete_keeps k s text).1)
step-times k s (rejects now text geo target) ip codec on =
    record_rejected_ip-times k s now text geo target ip

-- After any operations that change the store, the count that is kept of an address's rejections in the memory
-- is the number of them, in any spelling, since it was last added, or since the start with the count of the
-- start. Every write to the file or secret succeeds, and nothing is read again from it: reading it again
-- would bring back a rejection that was taken out without saving. Normal forms are normal, and no two
-- addresses share a digest.
pub rejections_lem :
    (k : Codec) (s : Store) (ops : List Op) (ip : String)
    → IsCodec k
    → s.writable ≡ true
    → rejected_times (run k s ops) ip ≡ rejections k ops ip (rejected_times s ip)
unfolding run
rejections_lem k s [] ip codec on = refl
rejections_lem k s (op ∷ ops) ip codec on =
    rejections_lem k (step k s op) ops ip codec (step-writable k s op ∙ on)
    ∙ ap (λ n. rejections k ops ip n) (step-times k s op ip codec on)
