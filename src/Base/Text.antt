-- ===== src/Base/Text.antt =====
-- Python's `str` methods that the program uses, over code points.
use Prim.Native.Char.{code}
use Prim.Native.Nat.{ℕ, ◌+◌}
use Prim.Native.String.{String}
use mathlib.Core.Bool.{Bool, true, false, ◌&&◌, ◌||◌}
use mathlib.Core.List.{List, [], ◌∷◌, map}
use rdp_on_demand_proxy_serv.Base.Tests.{leb, nat_eq, if◌then◌else◌}

abbrev pub codes : String → List ℕ
codes String.[] = []
codes (String.◌∷◌ c s) = code c ∷ codes s

-- `lower()`, on ASCII letters.
abbrev pub lower_code : ℕ → ℕ
lower_code c = if leb b'A' c && leb c b'Z' then c + 32 else c

unfoldable pub lower : List ℕ → List ℕ
lower = map lower_code

unfoldable pub starts_with : List ℕ → List ℕ → Bool
starts_with xs [] = true
starts_with [] (y ∷ ys) = false
starts_with (x ∷ xs) (y ∷ ys) = nat_eq x y && starts_with xs ys

-- `needle in text`
unfoldable pub contains : List ℕ → List ℕ → Bool
unfolding starts_with
contains [] needle = starts_with [] needle
contains (x ∷ xs) needle = starts_with (x ∷ xs) needle || contains xs needle

-- any(k in text for k in needles)
unfoldable pub contains_any : List ℕ → List String → Bool
unfolding contains
contains_any text [] = false
contains_any text (k ∷ ks) = contains text (codes k) || contains_any text ks
