-- ===== src/Whitelist/Tests.antt =====
-- Runs of the store with a small codec.
use rdp_on_demand_proxy_serv.Base.{
  ◌≡◌, refl, subst, inl, inr, Bool-cases, String, true, false, none, some, List, [], ◌∷◌,
  if◌then◌else◌, ◌==◌, arith,
}
use rdp_on_demand_proxy_serv.Base.Dict.{get}
use rdp_on_demand_proxy_serv.Whitelist.{Codec, Entry, Rejection, Content, Store, contains}
use rdp_on_demand_proxy_serv.Whitelist.Listing.{
  IsCodec, Op, adds, ingests, rejects, run, listed, has, contains_lem,
}
use rdp_on_demand_proxy_serv.Whitelist.Saving.{
  entries_are_saved, rejections, rejected_times, rejections_lem,
}

-- Every text but "x" is an address in its normal form, and "long" is another spelling of "a".
abbrev codec : Codec
codec = record {
  strip = λ t. t;
  normalize_ip = λ t. if t == "x" then none else if t == "long" then some "a" else some t;
  cipher_of = λ t. t;
  encrypt_ip = λ n t. t;
}

codec_normal :
    (t : String) (ip : String) → codec.normalize_ip t ≡ some ip → codec.normalize_ip ip ≡ some ip
codec_normal t ip h = elim (Bool-cases (t == "x")) [
  | inl bad ↦ absurd (ground (arith, h, bad))
  | inr good ↦ elim (Bool-cases (t == "long")) [
    | inl long ↦
        let same : ◌≡◌ {A = String} "a" ip = ground (arith, h, good, long) in
        subst (λ i. codec.normalize_ip i ≡ some i) same refl
    | inr short ↦
        let same : t ≡ ip = ground (arith, h, good, short) in
        subst (λ i. codec.normalize_ip i ≡ some i) same (ground (arith, good, short))
  ]
]

codec-IsCodec : IsCodec codec
codec-IsCodec = record { normal = codec_normal; one_cipher = λ a b na nb e. e }

abbrev empty : Store
empty = record {
  enabled = true;
  writable = true;
  entries = [];
  rejected = [];
  saved = record { entries = []; rejected = [] };
}

abbrev ops : List Op
ops =
    rejects 1 "long" "" "desk"
    ∷ adds 2 0 "long" "manual"
    ∷ rejects 3 "b" "" "desk"
    ∷ ingests 4 1 "x"
    ∷ []

contains_lem_example :
    (contains codec (run codec empty ops) none "long").1
    ≡ some (listed codec ops "a" (has codec empty "a"))
contains_lem_example = contains_lem codec empty ops "long" "a" codec-IsCodec refl refl

entries_are_saved_example : (run codec empty ops).saved.entries ≡ (run codec empty ops).entries
entries_are_saved_example = entries_are_saved codec empty ops refl refl

rejections_lem_example :
    rejected_times (run codec empty ops) "b" ≡ rejections codec ops "b" (rejected_times empty "b")
rejections_lem_example = rejections_lem codec empty ops "b" codec-IsCodec refl

abbrev entry : Entry
entry = record {
  cipher = "a";
  ip = "a";
  value = "a";
  added_at = 1;
  source = "manual";
  legacy = false;
}

abbrev rejection : Rejection
rejection = record { ip = "a"; geo = ""; target = "desk"; count = 1; last_seen_at = 1 }

abbrev both : Content
both = record { entries = ("a", entry) ∷ []; rejected = ("a", rejection) ∷ [] }

abbrev full : Store
full = record {
  enabled = true;
  writable = true;
  entries = both.entries;
  rejected = both.rejected;
  saved = both;
}

there : get full.entries "a" ≡ some entry
unfolding get
there = refl

kept : get full.saved.rejected "a" ≡ some rejection
unfolding get
kept = refl
