-- ===== src/Whitelist/File/Tests.antt =====
-- Documents of the store with a small codec.
use rdp_on_demand_proxy_serv.Base.{
  ℕ, ◌≡◌, refl, subst, String, true, false, Option, none, some, List, [], ◌∷◌, if◌then◌else◌, ◌==◌,
  arith, inl, inr, Bool-cases,
}
use rdp_on_demand_proxy_serv.Base.Dict.{get, put}
use rdp_on_demand_proxy_serv.Whitelist.{Codec, Store, Content, ingest_text, record_rejected_ip}
use rdp_on_demand_proxy_serv.Whitelist.Listing.{Op, ingests, rejects, step, run}
use rdp_on_demand_proxy_serv.Whitelist.File.{
  Reader, Json, null, text, array, object, end, field, item, last,
}
use rdp_on_demand_proxy_serv.Whitelist.File.Payload.{decode_payload, serialize_payload}
use rdp_on_demand_proxy_serv.Whitelist.File.Stored.{IsStored}
use rdp_on_demand_proxy_serv.Whitelist.File.Keeps.{
  IsReader, content_of, run_reads_back, run-IsStored,
}
use rdp_on_demand_proxy_serv.Whitelist.Storage.{
  Loader, Disk, filesystem, refresh_if_needed, persist_locked, list_entries,
}
use rdp_on_demand_proxy_serv.Whitelist.Storage.Freshness.{saved_is_read}

-- One address in two spellings.
abbrev codec : Codec
codec = record {
  strip = λ t. if t == " a " then "a" else t;
  normalize_ip = λ t. if t == "a" then some "a" else if t == " a " then some "a" else none;
  cipher_of = λ t. "digest";
  encrypt_ip = λ n t. "sealed";
}

abbrev reader : Reader
reader = record {
  codec = codec;
  decrypt_ip = λ t. if t == "sealed" then some "a" else none;
  text_of = λ j. "?";
  float_of = λ t. none;
  int_of = λ t. none;
}

one_address :
    (P : String → Type 0) (t : String) (ip : String) → codec.normalize_ip t ≡ some ip → P "a" → P ip
one_address P t ip h p = elim (Bool-cases (t == "a")) [
  | inl e ↦ let same : ◌≡◌ {A = String} "a" ip = ground (arith, h, e) in subst P same p
  | inr e ↦ elim (Bool-cases (t == " a ")) [
    | inl f ↦ let same : ◌≡◌ {A = String} "a" ip = ground (arith, h, e, f) in subst P same p
    | inr f ↦ absurd (ground (arith, h, e, f))
  ]
]

reader-IsReader : IsReader reader
reader-IsReader = record {
  normal = λ t ip h. one_address (λ n. codec.normalize_ip n ≡ some n) t ip h refl;
  ip_stripped =
      λ ip h. one_address (λ n. (codec.strip n ≡ n) × ((n == "") ≡ false)) ip ip h (refl, refl);
  cipher_stripped = λ ip h. (refl, refl);
  value_stripped = λ n ip h. (refl, refl);
  decrypted = λ n ip h. one_address (λ t. ◌≡◌ {A = Option String} (some "a") (some t)) ip ip h refl;
  im_stripped = refl;
}

abbrev empty : Store
empty = record {
  enabled = true;
  writable = true;
  entries = [];
  rejected = [];
  saved = record { entries = []; rejected = [] };
}

abbrev ops : List Op
ops = ingests 2 0 "a" ∷ rejects 3 " a " "nowhere" "desk" ∷ []

nothing-IsStored : IsStored reader (content_of empty)
unfolding get
nothing-IsStored = record {
  entries_stored = λ k v h. absurd (cc);
  rejected_stored = λ k v h. absurd (cc);
}

run_reads_back_example :
    let kept = content_of (run codec empty ops) in
    (again : Content) × (decode_payload reader (λ i. i) (serialize_payload kept) ≡ some again)
    × ((key : String)
        → (get again.entries key ≡ get kept.entries key)
          × (get again.rejected key ≡ get kept.rejected key))
run_reads_back_example =
    run_reads_back reader empty ops (λ i. i) reader-IsReader (tt, ((refl, refl), tt))
      nothing-IsStored

abbrev old_list : Json
old_list = object (
    field "cipher_ips" null
      (field "ips" (array (item (text " a ") (item (text "") (item (text "other") last)))) end))

-- An older document: an address is encrypted anew, another text is taken for a digest.
old_list_read :
    decode_payload reader (λ i. i) old_list
    ≡ some (record {
      entries =
          (
            "digest",
            record {
              cipher = "digest";
              ip = "a";
              value = "sealed";
              added_at = 0;
              source = "legacy";
              legacy = false;
            },
          )
          ∷ (
            "other",
            record {
              cipher = "other";
              ip = "";
              value = "";
              added_at = 0;
              source = "legacy";
              legacy = true;
            },
          )
          ∷ [];
      rejected = [];
    })
unfolding decode_payload put
old_list_read = refl

-- A time that is no number makes the reading fail.
bad_time :
    decode_payload reader
      (λ i. i)
      (object (
        field "entries"
          (array (
            item
              (object (field "cipher" (text "digest") (field "added_at" (text "soon") end)))
              last))
          end))
    ≡ none
unfolding decode_payload
bad_time = refl

abbrev one_entry : Content
one_entry = content_of (run codec empty ops)

abbrev process : Content → Option ℕ → Loader
process c t = record {
  mode = filesystem;
  content = c;
  last_loaded_mtime = t;
  last_k8_refresh_at = 0;
}

abbrev disk : Disk
disk = record { changed_at = some 10; document = some null; secret = none }

one_entry-IsStored : IsStored reader one_entry
one_entry-IsStored =
    run-IsStored reader reader-IsReader empty ops (tt, ((refl, refl), tt)) nothing-IsStored

saved_is_read_example :
    let read =
      (refresh_if_needed reader
        (λ i. i)
        (process (content_of empty) (some 10))
        (persist_locked (process one_entry (some 10)) disk 11).1
        12).content in
    (get read.entries "digest" ≡ get one_entry.entries "digest")
    × (get read.rejected "digest" ≡ get one_entry.rejected "digest")
saved_is_read_example =
    saved_is_read reader (λ i. i) (process one_entry (some 10))
      (process (content_of empty) (some 10)) disk 11 12 "digest" one_entry-IsStored refl refl

-- The entry that was added is listed.
listed_one :
    list_entries reader one_entry
    ≡ record { cipher = "digest"; ip = "a"; source = "im"; added_at = 2; legacy = false } ∷ []
unfolding list_entries run step ingest_text record_rejected_ip put get
listed_one = refl
