-- ===== src/Base/Sort.antt =====
-- `xs.sort(key=..., reverse=True)`: descending, and stable as Python's sort is.
use Prim.Native.Nat.{ℕ, zero, suc, ◌≤◌}
use mathlib.Core.List.{List, [], ◌∷◌, Perm}
use mathlib.Core.List.Perm
use native.Mathlib.Omega.{arith}
use mathlib.Core.Logic.{inl, inr}
use mathlib.Core.Bool.{Bool}
use rdp_on_demand_proxy_serv.Base.Tests.{leb, if◌then◌else◌, Bool-cases}
use rdp_on_demand_proxy_serv.Base.Lists.{All, All-take, take}

module _ {ℓ} {A : Type ℓ} (key : A → ℕ) where
  unfoldable pub insert_desc : A → List A → List A
  insert_desc x [] = x ∷ []
  insert_desc x (y ∷ ys) =
      let rest = y ∷ insert_desc x ys in if leb (key y) (key x) then x ∷ y ∷ ys else rest

  unfoldable pub sort_desc : List A → List A
  unfolding insert_desc
  sort_desc [] = []
  sort_desc (x ∷ xs) = insert_desc x (sort_desc xs)

  -- Each key bounds the keys after it.
  abbrev pub IsDescending : List A → Type 0
  IsDescending [] = Unit
  IsDescending (x ∷ xs) = All (λ y. key y ≤ key x) xs × IsDescending xs

  insert_desc-perm : (x : A) (ys : List A) → Perm (insert_desc x ys) (x ∷ ys)
  unfolding insert_desc
  insert_desc-perm x [] = Perm.refl _
  insert_desc-perm x (y ∷ ys) = elim (Bool-cases (leb (key y) (key x))) [
    | inl e ↦ rw e (Perm.refl _)
    | inr e ↦ rw e (Perm.trans (Perm.cons y (insert_desc-perm x ys)) (Perm.swap x y ys))
  ]

  -- The sorted list has the same elements.
  pub sort_desc-perm : (xs : List A) → Perm (sort_desc xs) xs
  unfolding sort_desc
  sort_desc-perm [] = Perm.refl _
  sort_desc-perm (x ∷ xs) =
      Perm.trans (insert_desc-perm x (sort_desc xs)) (Perm.cons x (sort_desc-perm xs))

  All-weaken : (m n : ℕ) (ys : List A) → m ≤ n → All (λ y. key y ≤ m) ys → All (λ y. key y ≤ n) ys
  All-weaken m n [] h a = tt
  All-weaken m n (y ∷ ys) h a = (omega arith, All-weaken m n ys h a.1)

  All-insert_desc {κ} :
      (P : A → Type κ) (x : A) (ys : List A) → P x → All P ys → All P (insert_desc x ys)
  unfolding insert_desc
  All-insert_desc P x [] h a = (h, tt)
  All-insert_desc P x (y ∷ ys) h a = elim (Bool-cases (leb (key y) (key x))) [
    | inl e ↦ rw e (h, a)
    | inr e ↦ rw e (a.0, All-insert_desc P x ys h a.1)
  ]

  pub All-sort_desc {κ} : (P : A → Type κ) (xs : List A) → All P xs → All P (sort_desc xs)
  unfolding sort_desc
  All-sort_desc P [] a = tt
  All-sort_desc P (x ∷ xs) a = All-insert_desc P x (sort_desc xs) a.0 (All-sort_desc P xs a.1)

  insert_desc-IsDescending :
      (x : A) (ys : List A) → IsDescending ys → IsDescending (insert_desc x ys)
  unfolding insert_desc
  insert_desc-IsDescending x [] d = (tt, tt)
  insert_desc-IsDescending x (y ∷ ys) d = elim (Bool-cases (leb (key y) (key x))) [
    | inl e ↦ rw e ((ground arith, All-weaken (key y) (key x) ys (ground arith) d.0), d)
    | inr e ↦ rw e (
      All-insert_desc (λ z. key z ≤ key y) x ys (ground arith) d.0,
      insert_desc-IsDescending x ys d.1,
    )
  ]

  pub sort_desc-IsDescending : (xs : List A) → IsDescending (sort_desc xs)
  unfolding sort_desc
  sort_desc-IsDescending [] = tt
  sort_desc-IsDescending (x ∷ xs) =
      insert_desc-IsDescending x (sort_desc xs) (sort_desc-IsDescending xs)

  pub IsDescending-take : (n : ℕ) (xs : List A) → IsDescending xs → IsDescending (take n xs)
  IsDescending-take zero xs d = tt
  IsDescending-take (suc n) [] d = tt
  IsDescending-take (suc n) (x ∷ xs) d = (All-take _ n xs d.0, IsDescending-take n xs d.1)

-- `sorted(xs, key=...)` in ascending order, by the test that the first key is not above the second.
module _ {ℓ} {A : Type ℓ} (not_above : A → A → Bool) where
  unfoldable pub insert_by : A → List A → List A
  insert_by x [] = x ∷ []
  insert_by x (y ∷ ys) = let rest = y ∷ insert_by x ys in if not_above x y then x ∷ y ∷ ys else rest

  unfoldable pub sort_by : List A → List A
  unfolding insert_by
  sort_by [] = []
  sort_by (x ∷ xs) = insert_by x (sort_by xs)
