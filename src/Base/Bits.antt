-- ===== src/Base/Bits.antt =====
-- Bytes: exclusive or, and the bytes of a number in big-endian order.
use Prim.Native.Nat.{
  ℕ, zero, suc, ◌+◌, ◌*◌, ◌/◌, ◌%◌, ◌≤◌, ◌<◌, differ, bit_xor, digits, bit_xor-bitwise,
}
use mathlib.Core.Path.{◌≡◌, refl}
use mathlib.Core.List.{List, [], ◌∷◌, ◌++◌}
use native.Mathlib.Omega.{arith}
use rdp_on_demand_proxy_serv.Base.Lists.{All, length, length-append}

abbrev xor_digits : ℕ → ℕ → ℕ → ℕ
xor_digits n a b = digits (λ b. b) differ n a b

-- The digits that remain are enough as fuel.
xor_digits_fuel : (n m a b : ℕ) → a ≤ n → a ≤ m → xor_digits n a b ≡ xor_digits m a b
xor_digits_fuel zero zero a b p q = refl
xor_digits_fuel zero (suc m) zero b p q = refl
xor_digits_fuel zero (suc m) (suc a) b p q = absurd (omega arith)
xor_digits_fuel (suc n) zero zero b p q = refl
xor_digits_fuel (suc n) zero (suc a) b p q = absurd (omega arith)
xor_digits_fuel (suc n) (suc m) zero b p q = refl
xor_digits_fuel (suc n) (suc m) (suc a) b p q =
    omega (arith, xor_digits_fuel n m (suc a / 2) (b / 2) (omega arith) (omega arith))

zero-bit_xor : (b : ℕ) → bit_xor 0 b ≡ b
zero-bit_xor b = bit_xor-bitwise 0 b

differ_zero : (b : ℕ) → differ 0 b ≡ b
differ_zero b = refl

bit_xor_step : (a b : ℕ) → bit_xor a b ≡ bit_xor (a / 2) (b / 2) * 2 + differ (a % 2) (b % 2)
bit_xor_step zero b = omega (arith, zero-bit_xor b, zero-bit_xor (b / 2), differ_zero (b % 2))
bit_xor_step (suc a) b = omega (
  arith,
  bit_xor-bitwise (suc a) b,
  bit_xor-bitwise (suc a / 2) (b / 2),
  xor_digits_fuel a (suc a / 2) (suc a / 2) (b / 2) (omega arith) (omega arith),
)

differ-bit : (a b : ℕ) → a ≤ 1 → b ≤ 1 → differ a b ≤ 1
differ-bit zero b p q = omega arith
differ-bit (suc zero) zero p q = omega arith
differ-bit (suc zero) (suc zero) p q = omega arith
differ-bit (suc zero) (suc (suc b)) p q = absurd (omega arith)
differ-bit (suc (suc a)) b p q = absurd (omega arith)

differ_twice : (a b : ℕ) → a ≤ 1 → b ≤ 1 → differ (differ a b) b ≡ a
differ_twice zero zero p q = refl
differ_twice zero (suc zero) p q = refl
differ_twice zero (suc (suc b)) p q = absurd (omega arith)
differ_twice (suc zero) zero p q = refl
differ_twice (suc zero) (suc zero) p q = refl
differ_twice (suc zero) (suc (suc b)) p q = absurd (omega arith)
differ_twice (suc (suc a)) b p q = absurd (omega arith)

bit_xor_twice_step :
    (a b : ℕ) → bit_xor (bit_xor (a / 2) (b / 2)) (b / 2) ≡ a / 2 → bit_xor (bit_xor a b) b ≡ a
bit_xor_twice_step a b ih =
    let low : differ (a % 2) (b % 2) ≤ 1 = differ-bit (a % 2) (b % 2) (omega arith) (omega arith) in
    let half : bit_xor a b / 2 ≡ bit_xor (a / 2) (b / 2) = omega (arith, bit_xor_step a b, low) in
    let bit : bit_xor a b % 2 ≡ differ (a % 2) (b % 2) = omega (arith, bit_xor_step a b, low) in
    let same : differ (differ (a % 2) (b % 2)) (b % 2) ≡ a % 2 =
      differ_twice (a % 2) (b % 2) (omega arith) (omega arith) in
    rw (bit_xor_step (bit_xor a b) b, half, bit, ih, same) (omega arith)

bit_xor_twice_fuel : (n a b : ℕ) → a ≤ n → b ≤ n → bit_xor (bit_xor a b) b ≡ a
bit_xor_twice_fuel zero zero zero p q = refl
bit_xor_twice_fuel zero zero (suc b) p q = absurd (omega arith)
bit_xor_twice_fuel zero (suc a) b p q = absurd (omega arith)
bit_xor_twice_fuel (suc n) a b p q =
    bit_xor_twice_step a b (bit_xor_twice_fuel n (a / 2) (b / 2) (omega arith) (omega arith))

pub bit_xor_twice : (a b : ℕ) → bit_xor (bit_xor a b) b ≡ a
bit_xor_twice a b = bit_xor_twice_fuel (a + b) a b (omega arith) (omega arith)

-- The numbers of `k` digits.
abbrev two_to : ℕ → ℕ
two_to zero = 1
two_to (suc k) = two_to k * 2

bit_xor-below : (k a b : ℕ) → a < two_to k → b < two_to k → bit_xor a b < two_to k
bit_xor-below zero zero zero p q = omega (arith, zero-bit_xor 0)
bit_xor-below zero zero (suc b) p q = absurd (omega arith)
bit_xor-below zero (suc a) b p q = absurd (omega arith)
bit_xor-below (suc k) a b p q = omega (
  arith,
  bit_xor_step a b,
  differ-bit (a % 2) (b % 2) (omega arith) (omega arith),
  bit_xor-below k (a / 2) (b / 2) (omega arith) (omega arith),
)

pub bit_xor-byte : (a b : ℕ) → a < 256 → b < 256 → bit_xor a b < 256
bit_xor-byte a b p q = bit_xor-below 8 a b p q

-- n.to_bytes(width, "big"), for a number that fits.
unfoldable pub to_bytes : ℕ → ℕ → List ℕ
to_bytes zero n = []
to_bytes (suc w) n = to_bytes w (n / 256) ++ (n % 256 ∷ [])

abbrev pub IsBytes : List ℕ → Type 0
IsBytes = All (λ b. b < 256)

pub append-IsBytes : (xs ys : List ℕ) → IsBytes xs → IsBytes ys → IsBytes (xs ++ ys)
append-IsBytes [] ys p q = q
append-IsBytes (x ∷ xs) ys p q = (p.0, append-IsBytes xs ys p.1 q)

pub to_bytes-IsBytes : (w n : ℕ) → IsBytes (to_bytes w n)
unfolding to_bytes
to_bytes-IsBytes zero n = tt
to_bytes-IsBytes (suc w) n =
    append-IsBytes (to_bytes w (n / 256)) (n % 256 ∷ []) (to_bytes-IsBytes w (n / 256))
      (omega arith, tt)

pub length-to_bytes : (w n : ℕ) → length (to_bytes w n) ≡ w
unfolding to_bytes
length-to_bytes zero n = refl
length-to_bytes (suc w) n =
    omega (arith, length-append (to_bytes w (n / 256)) (n % 256 ∷ []), length-to_bytes w (n / 256))
