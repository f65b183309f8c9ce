-- ===== src/Base/Count.antt =====
-- How many entries of a dict satisfy a test, when one entry is written.
use Prim.Native.String.{String}
use Prim.Native.Nat.{ℕ, ◌+◌, ◌≤◌}
use mathlib.Core.Path.{◌≡◌, subst}
use mathlib.Core.Logic.{inl, inr}
use mathlib.Core.Bool.{Bool, true, false}
use mathlib.Core.Option.{none, some}
use mathlib.Core.List.{[], ◌∷◌}
use native.Mathlib.Omega.{arith}
use text.Mathlib.Text.{◌==◌}
use text.Mathlib.TextEquality.{eq_iff}
use rdp_on_demand_proxy_serv.Base.Tests.{Bool-cases}
use rdp_on_demand_proxy_serv.Base.Dict.{Dict, get, put, get-put}

abbrev pub one_if : Bool → ℕ
one_if true = 1
one_if false = 0

module _ {ℓ} {V : Type ℓ} where
  abbrev pub count : (V → Bool) → Dict V → ℕ
  count p [] = 0
  count p ((k, v) ∷ d) = one_if (p v) + count p d

  -- The entry that was found is exchanged.
  pub count-put :
      (p : V → Bool) (d : Dict V) (k : String) (old : V) (new : V)
      → get d k ≡ some old
      → count p (put d k new) + one_if (p old) ≡ count p d + one_if (p new)
  unfolding get put
  count-put p [] k old new h = cc
  count-put p ((j, w) ∷ d) k old new h = ground (arith, count-put p d k old new)

  pub count-put_fresh :
      (p : V → Bool) (d : Dict V) (k : String) (new : V)
      → get d k ≡ none
      → count p (put d k new) ≡ count p d + one_if (p new)
  unfolding get put
  count-put_fresh p [] k new h = omega arith
  count-put_fresh p ((j, w) ∷ d) k new h = ground (arith, count-put_fresh p d k new)

  -- An entry that satisfies the test is counted.
  pub counted :
      (p : V → Bool) (d : Dict V) (k : String) (v : V) → get d k ≡ some v → one_if (p v) ≤ count p d
  unfolding get
  counted p [] k v h = cc
  counted p ((j, w) ∷ d) k v h = ground (arith, counted p d k v)

  -- What holds of every entry, with its key.
  abbrev pub Every {κ} : (String → V → Type κ) → Dict V → Type (ℓ ⊔ κ)
  Every P d = (k : String) (v : V) → get d k ≡ some v → P k v

  pub put-Every {κ} :
      (P : String → V → Type κ) (d : Dict V) (k : String) (new : V)
      → Every P d
      → P k new
      → Every P (put d k new)
  put-Every P d k new all one j v h = elim (Bool-cases (k == j)) [
    | inl same ↦
        let found : new ≡ v = ground (arith, h, same, get-put d k j new) in
        let key : k ≡ j = ground (arith, same, eq_iff k j) in
        subst (λ i. P i v) key (subst (P k) found one)
    | inr other ↦ all j v (ground (arith, h, other, get-put d k j new))
  ]
