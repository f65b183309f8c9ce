-- ===== src/Base/Dict.antt =====
-- Python's dict with text keys, as an association list in insertion order. An overwritten key keeps
-- its place. An iteration walks the keys and reads each entry.
use Prim.Native.String.{String}
use Prim.Native.Nat.{◌+◌, ◌≤◌, ◌<◌}
use mathlib.Core.Path.{◌≡◌, refl}
use mathlib.Core.Bool.{Bool, true, false, ◌&&◌, ◌||◌}
use mathlib.Core.Option.{Option, none, some}
use mathlib.Core.List.{List, [], ◌∷◌}
use native.Mathlib.Omega.{arith}
use text.Mathlib.Text.{◌==◌}
use text.Mathlib.TextEquality.{eq_iff}
use text.Mathlib.TextPositions.{eq_refl}
use mathlib.Core.Logic.{inl, inr}
use rdp_on_demand_proxy_serv.Base.Tests.{if◌then◌else◌, Option-cases}
use rdp_on_demand_proxy_serv.Base.Lists.{length, All}

abbrev pub Dict {ℓ} : Type ℓ → Type ℓ
Dict V = List (String × V)

abbrev pub member : String → List String → Bool
member k [] = false
member k (j ∷ ks) = j == k || member k ks

module _ {ℓ} {V : Type ℓ} where
  -- d.get(k)
  unfoldable pub get : Dict V → String → Option V
  get [] k = none
  get ((j, v) ∷ d) k = if j == k then some v else get d k

  -- d[k] = v
  unfoldable pub put : Dict V → String → V → Dict V
  put [] k v = (k, v) ∷ []
  put ((j, w) ∷ d) k v = if j == k then (k, v) ∷ d else (j, w) ∷ put d k v

  -- d.pop(k, None)
  unfoldable pub pop : Dict V → String → Dict V
  pop [] k = []
  pop ((j, v) ∷ d) k = let rest = pop d k in if j == k then rest else (j, v) ∷ rest

  unfoldable pub keys : Dict V → List String
  keys [] = []
  keys ((j, v) ∷ d) = j ∷ keys d

  abbrev pub holds : (V → Bool) → Option V → Bool
  holds p none = false
  holds p (some v) = p v

  -- [k for k, v in d.items() if p(v)], over the keys `ks` of `d`
  unfoldable pub select : (V → Bool) → Dict V → List String → List String
  select p d [] = []
  select p d (k ∷ ks) = let rest = select p d ks in if holds p (get d k) then k ∷ rest else rest

  -- for k in ks: d.pop(k, None)
  unfoldable pub pop_all : List String → Dict V → Dict V
  pop_all [] d = d
  pop_all (k ∷ ks) d = pop_all ks (pop d k)

  -- The entries that satisfy `p` are collected, then popped.
  unfoldable pub prune : (V → Bool) → Dict V → Dict V
  unfolding select pop_all keys
  prune p d = pop_all (select p d (keys d)) d

  -- list(d.values())
  abbrev cons_some : Option V → List V → List V
  cons_some none vs = vs
  cons_some (some v) vs = v ∷ vs

  unfoldable pub values_at : Dict V → List String → List V
  unfolding get
  values_at d [] = []
  values_at d (k ∷ ks) = cons_some (get d k) (values_at d ks)

  unfoldable pub values : Dict V → List V
  unfolding values_at keys
  values d = values_at d (keys d)

  -- [(k, v) for k, v in d.items() if p(v)]
  unfoldable pub entries_where : (V → Bool) → Dict V → Dict V
  entries_where p [] = []
  entries_where p ((k, v) ∷ d) = let rest = entries_where p d in if p v then (k, v) ∷ rest else rest

  pub get-put :
      (d : Dict V) (k j : String) (v : V) → get (put d k v) j ≡ (if k == j then some v else get d j)
  unfolding get put
  get-put [] k j v = refl
  get-put ((i, w) ∷ d) k j v = ground (arith, eq_iff k j, eq_iff i k, eq_iff i j, get-put d k j v)

  pub get-pop : (d : Dict V) (k j : String) → get (pop d k) j ≡ (if k == j then none else get d j)
  unfolding get pop
  get-pop [] k j = ground arith
  get-pop ((i, w) ∷ d) k j = ground (arith, eq_iff k j, eq_iff i k, eq_iff i j, get-pop d k j)

  pub get-pop_all :
      (ks : List String) (d : Dict V) (j : String)
      → get (pop_all ks d) j ≡ (if member j ks then none else get d j)
  unfolding pop_all
  get-pop_all [] d j = refl
  get-pop_all (k ∷ ks) d j = ground (arith, get-pop_all ks (pop d k) j, get-pop d k j)

  pub member-select :
      (p : V → Bool) (d : Dict V) (ks : List String) (j : String)
      → member j (select p d ks) ≡ (member j ks && holds p (get d j))
  unfolding select
  member-select p d [] j = refl
  member-select p d (k ∷ ks) j = ground (arith, member-select p d ks j, eq_iff k j)

  pub member-keys : (d : Dict V) (k : String) (v : V) → get d k ≡ some v → member k (keys d) ≡ true
  unfolding get keys
  member-keys [] k v h = cc
  member-keys ((j, w) ∷ d) k v h = ground (arith, member-keys d k v)

  abbrev pub unless : (V → Bool) → Option V → Option V
  unless p none = none
  unless p (some v) = if p v then none else some v

  pub get-prune : (p : V → Bool) (d : Dict V) (k : String) → get (prune p d) k ≡ unless p (get d k)
  unfolding prune
  get-prune p d k = elim (Option-cases (get d k)) [
    | inl e ↦ rw (get-pop_all, member-select, e) (ground arith)
    | inr (v, e) ↦ rw (get-pop_all, member-select, member-keys d k v e, e) (ground arith)
  ]

  -- A written key stays one entry; a new key adds one.
  pub length-put :
      (d : Dict V) (k : String) (v : V)
      → length (put d k v) ≡ (if holds (λ _. true) (get d k) then length d else length d + 1)
  unfolding get put
  length-put [] k v = omega arith
  length-put ((j, w) ∷ d) k v = ground (arith, length-put d k v)

  pub length-pop-le : (d : Dict V) (k : String) → length (pop d k) ≤ length d
  unfolding pop
  length-pop-le [] k = omega arith
  length-pop-le ((j, w) ∷ d) k = ground (arith, length-pop-le d k)

  -- A key that is there leaves by `pop`.
  pub length-pop-lt :
      (d : Dict V) (k : String) (v : V) → get d k ≡ some v → length (pop d k) < length d
  unfolding get pop
  length-pop-lt [] k v h = cc
  length-pop-lt ((j, w) ∷ d) k v h = ground (arith, length-pop-lt d k v, length-pop-le d k)

  pub count-put-le :
      (p : V → Bool) (d : Dict V) (k : String) (v : V)
      → length (entries_where p (put d k v)) ≤ length (entries_where p d) + (if p v then 1 else 0)
  unfolding entries_where put
  count-put-le p [] k v = ground arith
  count-put-le p ((j, w) ∷ d) k v = ground (arith, count-put-le p d k v)

  pub count-pop-le :
      (p : V → Bool) (d : Dict V) (k : String)
      → length (entries_where p (pop d k)) ≤ length (entries_where p d)
  unfolding entries_where pop
  count-pop-le p [] k = omega arith
  count-pop-le p ((j, w) ∷ d) k = ground (arith, count-pop-le p d k)

  -- Popping the first entry that satisfies `p` leaves fewer that do.
  pub count-pop-lt :
      (p : V → Bool) (d : Dict V) (k : String) (v : V) (rest : Dict V)
      → entries_where p d ≡ (k, v) ∷ rest
      → length (entries_where p (pop d k)) < length (entries_where p d)
  unfolding entries_where pop
  count-pop-lt p [] k v rest h = cc
  count-pop-lt p ((j, w) ∷ d) k v rest h =
      ground (arith, eq_refl k, count-pop-lt p d k v rest, count-pop-le p d k)

  All-values_at {κ} :
      (P : V → Type κ) (d : Dict V)
      → ((k : String) (v : V) → get d k ≡ some v → P v)
      → (ks : List String) → All P (values_at d ks)
  unfolding values_at
  All-values_at P d h [] = tt
  All-values_at P d h (k ∷ ks) = elim (Option-cases (get d k)) [
    | inl e ↦ rw (e, cons_some) (All-values_at P d h ks)
    | inr (v, e) ↦ rw (e, cons_some) (h k v e, All-values_at P d h ks)
  ]

  -- What holds of every entry holds of the listed values.
  pub All-values {κ} :
      (P : V → Type κ) (d : Dict V)
      → ((k : String) (v : V) → get d k ≡ some v → P v)
      → All P (values d)
  unfolding values
  All-values P d h = All-values_at P d h (keys d)

pub ruleset dict_laws = (get-put, get-pop, get-prune)
