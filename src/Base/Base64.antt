-- ===== src/Base/Base64.antt =====
-- Python's `base64.urlsafe_b64encode` and `urlsafe_b64decode`, on the codes of a text.
pub mod Laws
use Prim.Native.Char.{Char, code, nul}
use Prim.Native.Nat.{ℕ, zero, suc, ◌+◌, ◌-◌, ◌*◌, ◌/◌, ◌%◌, ◌<◌}
use Prim.Native.String.{String}
use mathlib.Core.Path.{◌≡◌, refl, ap, ◌∙◌}
use mathlib.Core.Bool.{Bool, true, false, ◌&&◌, ◌||◌}
use mathlib.Core.Option.{Option, none, some}
use mathlib.Core.List.{List, [], ◌∷◌, ◌++◌}
use native.Mathlib.Omega.{arith}
use rdp_on_demand_proxy_serv.Base.Tests.{ltb, leb, nat_eq, if◌then◌else◌}
use rdp_on_demand_proxy_serv.Base.Lists.{All, length}
use rdp_on_demand_proxy_serv.Base.Text.{codes}
use rdp_on_demand_proxy_serv.Base.Bits.{IsBytes}

char_at : String → ℕ → Char
char_at String.[] n = nul
char_at (String.◌∷◌ c s) zero = c
char_at (String.◌∷◌ c s) (suc n) = char_at s n

-- The letter of six bits.
pub letter : ℕ → Char
unfolding char_at
letter n = char_at "ABCDEFGHIJKLMNOPQRSTUVWXYZabcdefghijklmnopqrstuvwxyz0123456789-_" n

-- The six bits of a letter. The decoder takes `+` and `/` for `-` and `_`.
sextet : ℕ → Option ℕ
sextet c =
    if leb b'A' c && leb c b'Z'
    then some (c - 65)
    else if leb b'a' c && leb c b'z'
    then some (c - 71)
    else if leb b'0' c && leb c b'9'
    then some (c + 4)
    else if nat_eq c b'-' || nat_eq c b'+'
    then some 62
    else if nat_eq c b'_' || nat_eq c b'/'
    then some 63
    else none

-- The groups of six bits of the bytes.
unfoldable pub sextets : List ℕ → List ℕ
sextets [] = []
sextets (a ∷ []) = a / 4 ∷ a % 4 * 16 ∷ []
sextets (a ∷ b ∷ []) = a / 4 ∷ (a % 4 * 16 + b / 16) ∷ b % 16 * 4 ∷ []
sextets (a ∷ b ∷ c ∷ bytes) =
    a / 4 ∷ (a % 4 * 16 + b / 16) ∷ (b % 16 * 4 + c / 64) ∷ c % 64 ∷ sextets bytes

unfoldable pub spell : List ℕ → String → String
unfolding letter
spell [] tail = tail
spell (n ∷ ns) tail = String.◌∷◌ (letter n) (spell ns tail)

unfoldable pub padding_of : List ℕ → String
padding_of [] = ""
padding_of (a ∷ []) = "=="
padding_of (a ∷ b ∷ []) = "="
padding_of (a ∷ b ∷ c ∷ bytes) = padding_of bytes

unfoldable pub encode : List ℕ → String
unfolding sextets spell padding_of
encode bytes = spell (sextets bytes) (padding_of bytes)

-- text.rstrip("=")
unfoldable pub rstrip_padding : String → String
rstrip_padding String.[] = ""
rstrip_padding (String.◌∷◌ c s) = elim (rstrip_padding s) [
  | String.[] ↦ if nat_eq (code c) b'=' then "" else String.◌∷◌ c ""
  | String.◌∷◌ d t ↦ String.◌∷◌ c (String.◌∷◌ d t)
]

-- Where the decoder stands in a group of four letters, with the bits it carries over.
pub data Quad : Type 0 where
  first : Quad
  second third fourth : ℕ → Quad

pub data Kind : Type 0 where
  padding other : Kind
  bits : ℕ → Kind

pub kind : ℕ → Kind
unfolding sextet
kind c = if nat_eq c b'=' then padding else elim (sextet c) [ none ↦ other | some v ↦ bits v ]

abbrev pub step : Quad → ℕ → Quad × List ℕ
step first v = (second v, [])
step (second left) v = (third (v % 16), (left * 4 + v / 16) ∷ [])
step (third left) v = (fourth (v % 4), (left * 16 + v / 4) ∷ [])
step (fourth left) v = (first, (left * 64 + v) ∷ [])

-- The padding is complete with this `=`.
abbrev ends : Quad → ℕ → Bool
ends first pads = false
ends (second left) pads = false
ends (third left) pads = leb 4 (2 + (pads + 1))
ends (fourth left) pads = leb 4 (3 + (pads + 1))

abbrev pads_after : Quad → ℕ → ℕ
pads_after first pads = pads
pads_after (second left) pads = pads
pads_after (third left) pads = pads + 1
pads_after (fourth left) pads = pads + 1

abbrev pub emit : List ℕ → Option (List ℕ) → Option (List ℕ)
emit bytes none = none
emit bytes (some rest) = some (bytes ++ rest)

abbrev at_end : Quad → Option (List ℕ)
at_end first = some []
at_end (second left) = none
at_end (third left) = none
at_end (fourth left) = none

-- The bytes before the end of the input or of its padding, and none for `binascii.Error`. A character
-- that is no letter is passed over.
pub decode_from : Quad → ℕ → List ℕ → Option (List ℕ)
decode_from q pads [] = at_end q
decode_from q pads (c ∷ cs) = elim (kind c) [
  | padding ↦ elim (ends q pads) [ true ↦ some [] | false ↦ decode_from q (pads_after q pads) cs ]
  | other ↦ decode_from q pads cs
  | bits v ↦ emit (step q v).1 (decode_from (step q v).0 0 cs)
]

-- A text with a character outside ASCII raises ValueError.
abbrev pub is_ascii : List ℕ → Bool
is_ascii [] = true
is_ascii (c ∷ cs) = ltb c 128 && is_ascii cs

unfoldable pub decode : List ℕ → Option (List ℕ)
unfolding decode_from kind
decode cs = if is_ascii cs then decode_from first 0 cs else none

-- "=" * n
unfoldable pub pads : ℕ → List ℕ
pads zero = []
pads (suc n) = b'=' ∷ pads n

-- `-len % 4`
abbrev pub missing : ℕ → ℕ
missing n = (4 - n % 4) % 4

-- urlsafe_b64decode(value + "=" * (-len(value) % 4))
unfoldable pub decode_unpadded : String → Option (List ℕ)
unfolding decode pads
decode_unpadded value = let cs = codes value in decode (cs ++ pads (missing (length cs)))
