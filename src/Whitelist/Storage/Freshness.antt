-- ===== src/Whitelist/Storage/Freshness.antt =====
-- rdp_proxy/whitelist.py: two processes with one file or secret.
use rdp_on_demand_proxy_serv.Base.{
  ℕ, ◌+◌, ◌≡◌, refl, ◌∙◌, ap, String, Bool, true, some, leb, not, arith,
}
use rdp_on_demand_proxy_serv.Base.Dict.{get}
use rdp_on_demand_proxy_serv.Whitelist.{Content}
use rdp_on_demand_proxy_serv.Whitelist.File.{Json, Reader}
use rdp_on_demand_proxy_serv.Whitelist.File.Payload.{decode_payload, serialize_payload}
use rdp_on_demand_proxy_serv.Whitelist.File.Stored.{
  IsStored, reread, decode_payload-serialize_payload,
}
use rdp_on_demand_proxy_serv.Whitelist.Storage.{
  Mode, filesystem, k8, Disk, Loader, same_time, k8_refresh_interval, refresh_if_needed,
  persist_locked,
}

-- The process reads at its next operation: the file has another time than at its last reading, or the
-- last reading of the secret is three seconds old.
abbrev pub reads_next : Loader → ℕ → ℕ → Mode → Bool
reads_next b t now filesystem = not (same_time b.last_loaded_mtime t)
reads_next b t now k8 = leb (b.last_k8_refresh_at + k8_refresh_interval) now

abbrev kept_in : Disk → ℕ → Mode → Json → Disk
kept_in d t filesystem j = record d { changed_at = some t; document = some j }
kept_in d t k8 j = record d { secret = some j }

refresh-kept_in :
    (r : Reader) (random : ℕ → ℕ) (b : Loader) (d : Disk) (t now : ℕ) (mode : Mode) (j : Json)
    (c : Content)
    → b.mode ≡ mode
    → reads_next b t now mode ≡ true
    → decode_payload r random j ≡ some c
    → (refresh_if_needed r random b (kept_in d t mode j) now).content ≡ c
unfolding refresh_if_needed
refresh-kept_in r random b d t now filesystem j c m due e = ground (arith, m, due, e)
refresh-kept_in r random b d t now k8 j c m due e = ground (arith, m, due, e)

persist_locked-kept_in :
    (a : Loader) (d : Disk) (t : ℕ) (mode : Mode)
    → a.mode ≡ mode
    → (persist_locked a d t).1 ≡ kept_in d t mode (serialize_payload a.content)
unfolding persist_locked
persist_locked-kept_in a d t filesystem m = ground (arith, m)
persist_locked-kept_in a d t k8 m = ground (arith, m)

-- What one process has saved is what another, with the same file or secret, works on from its next
-- operation: it then has the same entry under every digest and the same rejection under every
-- address. In the file it needs a time of change other than that of its last reading, for the
-- secret that its last reading is at least three seconds old. The first one's entries and
-- rejections are such as the document keeps.
pub saved_is_read :
    (r : Reader) (random : ℕ → ℕ) (a b : Loader) (d : Disk) (t now : ℕ) (key : String)
    → IsStored r a.content
    → b.mode ≡ a.mode
    → reads_next b t now a.mode ≡ true
    → let read = (refresh_if_needed r random b (persist_locked a d t).1 now).content in
      (get read.entries key ≡ get a.content.entries key)
      × (get read.rejected key ≡ get a.content.rejected key)
saved_is_read r random a b d t now key is m due =
    let back = decode_payload-serialize_payload r random a.content key is in
    let same : (refresh_if_needed r random b (persist_locked a d t).1 now).content
        ≡ reread a.content =
      ap (λ (x : Disk). (refresh_if_needed r random b x now).content)
        (persist_locked-kept_in a d t a.mode refl)
      ∙ refresh-kept_in r random b d t now a.mode (serialize_payload a.content) (reread a.content) m
          due back.0 in
    (
      ap (λ (c : Content). get c.entries key) same ∙ back.1,
      ap (λ (c : Content). get c.rejected key) same ∙ back.2,
    )

-- In file mode a process does not read its own document again.
own_file_not_reread :
    (r : Reader) (random : ℕ → ℕ) (a : Loader) (d : Disk) (t now : ℕ)
    → a.mode ≡ filesystem
    → let saved = persist_locked a d t in refresh_if_needed r random saved.0 saved.1 now ≡ saved.0
unfolding refresh_if_needed persist_locked
own_file_not_reread r random a d t now m = ground (arith, m)
