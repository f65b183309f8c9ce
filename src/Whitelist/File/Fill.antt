-- ===== src/Whitelist/File/Fill.antt =====
-- A dict that is written from a list of its own values, in any order.
use rdp_on_demand_proxy_serv.Base.{
  ℕ, ◌≡◌, refl, String, Bool, false, ◌||◌, ◌&&◌, some, List, [], ◌∷◌, map, if◌then◌else◌, ◌==◌,
  eq_iff, arith, All, inl, inr, Bool-cases, Option-cases,
}
use rdp_on_demand_proxy_serv.Base.Dict.{
  Dict, get, put, get-put, keys, values, values_at, member, member-keys, All-values,
}
use rdp_on_demand_proxy_serv.Base.Sort.{insert_desc, sort_desc, insert_by, sort_by}
use rdp_on_demand_proxy_serv.Whitelist.{is_some}
use rdp_on_demand_proxy_serv.Whitelist.File.{Json, Read, reads}
use rdp_on_demand_proxy_serv.Whitelist.File.Payload.{decode_list}

module _ {ℓ} {V : Type ℓ} where
  abbrev pub any : (V → Bool) → List V → Bool
  any p [] = false
  any p (x ∷ xs) = p x || any p xs

  any-insert_desc :
      (key : V → ℕ) (p : V → Bool) (x : V) (ys : List V)
      → any p (insert_desc key x ys) ≡ (p x || any p ys)
  unfolding insert_desc
  any-insert_desc key p x [] = refl
  any-insert_desc key p x (y ∷ ys) = ground (arith, any-insert_desc key p x ys)

  pub any-sort_desc :
      (key : V → ℕ) (p : V → Bool) (xs : List V) → any p (sort_desc key xs) ≡ any p xs
  unfolding sort_desc
  any-sort_desc key p [] = refl
  any-sort_desc key p (x ∷ xs) =
      ground (arith, any-insert_desc key p x (sort_desc key xs), any-sort_desc key p xs)

  any-insert_by :
      (le : V → V → Bool) (p : V → Bool) (x : V) (ys : List V)
      → any p (insert_by le x ys) ≡ (p x || any p ys)
  unfolding insert_by
  any-insert_by le p x [] = refl
  any-insert_by le p x (y ∷ ys) = ground (arith, any-insert_by le p x ys)

  pub any-sort_by :
      (le : V → V → Bool) (p : V → Bool) (xs : List V) → any p (sort_by le xs) ≡ any p xs
  unfolding sort_by
  any-sort_by le p [] = refl
  any-sort_by le p (x ∷ xs) =
      ground (arith, any-insert_by le p x (sort_by le xs), any-sort_by le p xs)

  All-insert_by {κ} :
      (P : V → Type κ) (le : V → V → Bool) (x : V) (ys : List V)
      → P x
      → All P ys
      → All P (insert_by le x ys)
  unfolding insert_by
  All-insert_by P le x [] h a = (h, tt)
  All-insert_by P le x (y ∷ ys) h a = elim (Bool-cases (le x y)) [
    | inl e ↦ rw e (h, a)
    | inr e ↦ rw e (a.0, All-insert_by P le x ys h a.1)
  ]

  pub All-sort_by {κ} :
      (P : V → Type κ) (le : V → V → Bool) (xs : List V) → All P xs → All P (sort_by le xs)
  unfolding sort_by
  All-sort_by P le [] a = tt
  All-sort_by P le (x ∷ xs) a = All-insert_by P le x (sort_by le xs) a.0 (All-sort_by P le xs a.1)

  any-values_at :
      (D : Dict V) (key : V → String) (ks : List String) (k : String)
      → ((j : String) (v : V) → get D j ≡ some v → key v ≡ j)
      → any (λ v. key v == k) (values_at D ks) ≡ (member k ks && is_some (get D k))
  unfolding values_at
  any-values_at D key [] k named = refl
  any-values_at D key (j ∷ ks) k named = elim (Option-cases (get D j)) [
    | inl e ↦ ground (arith, e, eq_iff j k, any-values_at D key ks k named)
    | inr (v, e) ↦
        ground (arith, e, eq_iff j k, eq_iff (key v) k, named j v, any-values_at D key ks k named)
  ]

  -- Under the key of a value that is listed.
  pub any-values :
      (D : Dict V) (key : V → String) (k : String)
      → ((j : String) (v : V) → get D j ≡ some v → key v ≡ j)
      → any (λ v. key v == k) (values D) ≡ is_some (get D k)
  unfolding values
  any-values D key k named = elim (Option-cases (get D k)) [
    | inl e ↦ ground (arith, e, any-values_at D key (keys D) k named)
    | inr (v, e) ↦ ground (arith, e, member-keys D k v, any-values_at D key (keys D) k named)
  ]

  unfoldable pub fill : (V → String) → Dict V → List V → Dict V
  fill key d [] = d
  fill key d (x ∷ xs) = fill key (put d (key x) x) xs

  pub get-fill :
      (D : Dict V) (key : V → String) (xs : List V) (d : Dict V) (k : String)
      → All (λ x. get D (key x) ≡ some x) xs
      → get (fill key d xs) k ≡ (if any (λ v. key v == k) xs then get D k else get d k)
  unfolding fill
  get-fill D key [] d k a = refl
  get-fill D key (x ∷ xs) d k a = ground (
    arith,
    a.0,
    eq_iff (key x) k,
    get-put d (key x) k x,
    get-fill D key xs (put d (key x) x) k a.1,
  )

  pub All-own :
      (D : Dict V) (key : V → String)
      → ((j : String) (v : V) → get D j ≡ some v → key v ≡ j)
      → All (λ x. get D (key x) ≡ some x) (values D)
  All-own D key named = All-values (λ x. get D (key x) ≡ some x) D λ j v e. rw (named j v e) e

  -- Items that are read back are written under their keys.
  pub decode_list-fill :
      (decode : Json → Read V) (encode : V → Json) (key : V → String) (xs : List V) (d : Dict V)
      → All (λ x. decode (encode x) ≡ reads x) xs
      → decode_list decode key d (map encode xs) ≡ some (fill key d xs)
  unfolding decode_list fill
  decode_list-fill decode encode key [] d a = refl
  decode_list-fill decode encode key (x ∷ xs) d a =
      rw a.0 (decode_list-fill decode encode key xs (put d (key x) x) a.1)
