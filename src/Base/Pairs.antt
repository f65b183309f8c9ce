-- ===== src/Base/Pairs.antt =====
-- Python's dict and set with keys that are pairs of texts, in insertion order.
use Prim.Native.String.{String}
use mathlib.Core.Path.{◌≡◌, refl}
use mathlib.Core.Bool.{Bool, true, false, ◌&&◌, ◌||◌}
use mathlib.Core.Option.{Option, none, some}
use mathlib.Core.List.{List, [], ◌∷◌}
use native.Mathlib.Omega.{arith}
use text.Mathlib.Text.{◌==◌}
use text.Mathlib.TextEquality.{eq_iff}
use rdp_on_demand_proxy_serv.Base.Tests.{if◌then◌else◌}

abbrev pub Pair : Type 0
Pair = String × String

abbrev pub same : Pair → Pair → Bool
same (a, b) (c, d) = a == c && b == d

-- key in s
unfoldable pub is_in : Pair → List Pair → Bool
is_in k [] = false
is_in k (j ∷ s) = same j k || is_in k s

-- s.add(key)
unfoldable pub add : Pair → List Pair → List Pair
add k [] = k ∷ []
add k (j ∷ s) = if same j k then j ∷ s else j ∷ add k s

-- s.discard(key)
unfoldable pub discard : Pair → List Pair → List Pair
discard k [] = []
discard k (j ∷ s) = let rest = discard k s in if same j k then rest else j ∷ rest

pub is_in-add : (s : List Pair) (k j : Pair) → is_in j (add k s) ≡ (same k j || is_in j s)
unfolding is_in add
is_in-add [] k j = refl
is_in-add ((a, b) ∷ s) (c, d) (e, f) = ground (
  arith,
  eq_iff a c,
  eq_iff b d,
  eq_iff a e,
  eq_iff b f,
  eq_iff c e,
  eq_iff d f,
  is_in-add s (c, d) (e, f),
)

pub is_in-discard :
    (s : List Pair) (k j : Pair) → is_in j (discard k s) ≡ (if same k j then false else is_in j s)
unfolding is_in discard
is_in-discard [] k j = ground arith
is_in-discard ((a, b) ∷ s) (c, d) (e, f) = ground (
  arith,
  eq_iff a c,
  eq_iff b d,
  eq_iff a e,
  eq_iff b f,
  eq_iff c e,
  eq_iff d f,
  is_in-discard s (c, d) (e, f),
)

module _ {ℓ} {V : Type ℓ} where
  -- d.get(key)
  unfoldable pub find : List (Pair × V) → Pair → Option V
  find [] k = none
  find ((j, v) ∷ d) k = if same j k then some v else find d k

  -- d[key] = v
  unfoldable pub set : List (Pair × V) → Pair → V → List (Pair × V)
  set [] k v = (k, v) ∷ []
  set ((j, w) ∷ d) k v = if same j k then (j, v) ∷ d else (j, w) ∷ set d k v

  -- d.pop(key, None)
  unfoldable pub unset : List (Pair × V) → Pair → List (Pair × V)
  unset [] k = []
  unset ((j, v) ∷ d) k = let rest = unset d k in if same j k then rest else (j, v) ∷ rest

  -- [k for k, v in d.items() if p(v)]
  unfoldable pub keys_where : (V → Bool) → List (Pair × V) → List Pair
  keys_where p [] = []
  keys_where p ((k, v) ∷ d) = let rest = keys_where p d in if p v then k ∷ rest else rest

  -- for key in keys: d.pop(key, None)
  unfoldable pub unset_all : List Pair → List (Pair × V) → List (Pair × V)
  unset_all [] d = d
  unset_all (k ∷ ks) d = unset_all ks (unset d k)

  -- The keys of the entries that satisfy the test are collected, then popped.
  unfoldable pub drop_where : (V → Bool) → List (Pair × V) → List (Pair × V)
  unfolding keys_where unset_all unset
  drop_where p d = unset_all (keys_where p d) d

  -- list(d.values())
  unfoldable pub listed : List (Pair × V) → List V
  listed [] = []
  listed ((k, v) ∷ d) = v ∷ listed d

  pub find-set :
      (d : List (Pair × V)) (k j : Pair) (v : V)
      → find (set d k v) j ≡ (if same k j then some v else find d j)
  unfolding find set
  find-set [] k j v = refl
  find-set (((a, b), w) ∷ d) (c, e) (f, g) v = ground (
    arith,
    eq_iff a c,
    eq_iff b e,
    eq_iff a f,
    eq_iff b g,
    eq_iff c f,
    eq_iff e g,
    find-set d (c, e) (f, g) v,
  )

  pub find-unset :
      (d : List (Pair × V)) (k j : Pair)
      → find (unset d k) j ≡ (if same k j then none else find d j)
  unfolding find unset
  find-unset [] k j = ground arith
  find-unset (((a, b), w) ∷ d) (c, e) (f, g) = ground (
    arith,
    eq_iff a c,
    eq_iff b e,
    eq_iff a f,
    eq_iff b g,
    eq_iff c f,
    eq_iff e g,
    find-unset d (c, e) (f, g),
  )

  find-unset_all :
      (ks : List Pair) (d : List (Pair × V)) (k : Pair) (v : V)
      → find (unset_all ks d) k ≡ some v
      → find d k ≡ some v
  unfolding unset_all
  find-unset_all [] d k v h = h
  find-unset_all (j ∷ ks) d k v h =
      let rest : find (unset d j) k ≡ some v = find-unset_all ks (unset d j) k v h in
      ground (arith, rest, find-unset d j k)

  -- What is left was there.
  pub find-drop_where :
      (p : V → Bool) (d : List (Pair × V)) (k : Pair) (v : V)
      → find (drop_where p d) k ≡ some v
      → find d k ≡ some v
  unfolding drop_where
  find-drop_where p d k v h = find-unset_all (keys_where p d) d k v h

pub same_refl : (k : Pair) → same k k ≡ true
same_refl (a, b) = ground (arith, eq_iff a a, eq_iff b b)

pub same_eq : (j k : Pair) → same j k ≡ true → j ≡ k
same_eq (a, b) (c, d) h =
    let first : a ≡ c = ground (arith, h, eq_iff a c, eq_iff b d) in
    let second : b ≡ d = ground (arith, h, eq_iff a c, eq_iff b d) in cc (first, second)
