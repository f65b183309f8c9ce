-- ===== src/Base/Base64/Laws.antt =====
-- What base64 encodes is read back.
use Prim.Native.Char.{Char, code}
use Prim.Native.Nat.{ℕ, zero, suc, ◌+◌, ◌*◌, ◌/◌, ◌%◌, ◌<◌}
use Prim.Native.String.{String}
use mathlib.Core.Path.{◌≡◌, refl, ap, ◌∙◌}
use mathlib.Core.Bool.{Bool, true, false, ◌&&◌}
use mathlib.Core.Option.{Option, some}
use mathlib.Core.List.{List, [], ◌∷◌, ◌++◌}
use native.Mathlib.Omega.{arith}
use rdp_on_demand_proxy_serv.Base.Tests.{ltb, nat_eq}
use rdp_on_demand_proxy_serv.Base.Lists.{All, length}
use rdp_on_demand_proxy_serv.Base.Text.{codes}
use rdp_on_demand_proxy_serv.Base.Bits.{IsBytes}
use rdp_on_demand_proxy_serv.Base.Base64.{
  letter, sextets, spell, padding_of, encode, rstrip_padding, Quad, Kind, kind, step, emit,
  decode_from, is_ascii, decode, pads, missing, decode_unpadded, first, second, third, fourth,
  padding, other, bits,
}

-- Every group of six bits has a letter that stands for it, and the letter is no padding.
reads_back : ℕ → Bool
unfolding kind letter
reads_back n = elim (kind (code (letter n))) [
  | padding ↦ false
  | other ↦ false
  | bits v ↦ nat_eq v n && ltb (code (letter n)) 128
]

all_below : ℕ → (ℕ → Bool) → Bool
all_below zero p = true
all_below (suc n) p = p n && all_below n p

all_below_lem : (n : ℕ) (p : ℕ → Bool) (x : ℕ) → all_below n p ≡ true → x < n → p x ≡ true
unfolding all_below
all_below_lem zero p x h lt = absurd (omega arith)
all_below_lem (suc n) p x h lt = ground (arith, all_below_lem n p x)

letters_table : all_below 64 reads_back ≡ true
unfolding all_below reads_back
letters_table = refl

kind-bits :
    (n : ℕ) (k : Kind) → kind (code (letter n)) ≡ k → n < 64 → kind (code (letter n)) ≡ bits n
unfolding reads_back
kind-bits n padding e lt = ground (arith, e, all_below_lem 64 reads_back n letters_table lt)
kind-bits n other e lt = ground (arith, e, all_below_lem 64 reads_back n letters_table lt)
kind-bits n (bits v) e lt = ground (arith, e, all_below_lem 64 reads_back n letters_table lt)

letter-kind : (n : ℕ) → n < 64 → kind (code (letter n)) ≡ bits n
letter-kind n lt = kind-bits n (kind (code (letter n))) refl lt

letter-pad : (n : ℕ) → n < 64 → nat_eq (code (letter n)) b'=' ≡ false
unfolding kind
letter-pad n lt = ground (arith, letter-kind n lt)

letter-ascii :
    (n : ℕ) (k : Kind) → kind (code (letter n)) ≡ k → n < 64 → ltb (code (letter n)) 128 ≡ true
unfolding reads_back
letter-ascii n padding e lt = ground (arith, e, all_below_lem 64 reads_back n letters_table lt)
letter-ascii n other e lt = ground (arith, e, all_below_lem 64 reads_back n letters_table lt)
letter-ascii n (bits v) e lt = ground (arith, e, all_below_lem 64 reads_back n letters_table lt)

-- The codes of the letters alone.
abbrev letters : List ℕ → List ℕ
letters [] = []
letters (n ∷ ns) = code (letter n) ∷ letters ns

abbrev AreSextets : List ℕ → Type 0
AreSextets = All (λ n. n < 64)

sextets-AreSextets : (bs : List ℕ) → IsBytes bs → AreSextets (sextets bs)
unfolding sextets
sextets-AreSextets [] h = tt
sextets-AreSextets (a ∷ []) h = (omega arith, (omega arith, tt))
sextets-AreSextets (a ∷ b ∷ []) h = (omega arith, (omega arith, (omega arith, tt)))
sextets-AreSextets (a ∷ b ∷ c ∷ bytes) h =
    (omega arith, (omega arith, (omega arith, (omega arith, sextets-AreSextets bytes h.1.1.1))))

rstrip_padding-letter :
    (c : Char) (s : String) (t : String)
    → nat_eq (code c) b'=' ≡ false
    → rstrip_padding s ≡ t
    → codes (rstrip_padding (String.◌∷◌ c s)) ≡ code c ∷ codes t
unfolding rstrip_padding
rstrip_padding-letter c s String.[] h e = simp (e, h) refl
rstrip_padding-letter c s (String.◌∷◌ d t) h e = simp e refl

rstrip_padding-spell :
    (ns : List ℕ) (tail : String)
    → AreSextets ns
    → rstrip_padding tail ≡ ""
    → codes (rstrip_padding (spell ns tail)) ≡ letters ns
unfolding spell
rstrip_padding-spell [] tail h e = simp e refl
rstrip_padding-spell (n ∷ ns) tail h e =
    rstrip_padding-letter (letter n) (spell ns tail) (rstrip_padding (spell ns tail))
      (letter-pad n h.0) refl
    ∙ ap (λ (t : List ℕ). code (letter n) ∷ t) (rstrip_padding-spell ns tail h.1 e)

rstrip_padding-padding_of : (bs : List ℕ) → rstrip_padding (padding_of bs) ≡ ""
unfolding padding_of rstrip_padding
rstrip_padding-padding_of [] = refl
rstrip_padding-padding_of (a ∷ []) = refl
rstrip_padding-padding_of (a ∷ b ∷ []) = refl
rstrip_padding-padding_of (a ∷ b ∷ c ∷ bytes) = rstrip_padding-padding_of bytes

decode_from-bits :
    (q : Quad) (p : ℕ) (c : ℕ) (v : ℕ) (cs : List ℕ)
    → kind c ≡ bits v
    → decode_from q p (c ∷ cs) ≡ emit (step q v).1 (decode_from (step q v).0 0 cs)
unfolding decode_from
decode_from-bits q p c v cs e = rw (e, decode_from) refl

decode_from-letter :
    (q : Quad) (p : ℕ) (n : ℕ) (cs : List ℕ)
    → n < 64
    → decode_from q p (code (letter n) ∷ cs) ≡ emit (step q n).1 (decode_from (step q n).0 0 cs)
decode_from-letter q p n cs lt = decode_from-bits q p (code (letter n)) n cs (letter-kind n lt)

emit-cons :
    (b : ℕ) (c : ℕ) (bs : List ℕ) (o : Option (List ℕ))
    → b ≡ c
    → o ≡ some bs
    → emit (b ∷ []) o ≡ some (c ∷ bs)
emit-cons b c bs o e h = rw (e, h) refl

emit-nil : (bs : List ℕ) (o : Option (List ℕ)) → o ≡ some bs → emit [] o ≡ some bs
emit-nil bs o h = rw h refl

nothing_left : decode_from first 0 (pads 0) ≡ some []
unfolding decode_from pads
nothing_left = refl

pads_done : (left : ℕ) → decode_from (third left) 0 (pads 2) ≡ some []
unfolding decode_from kind pads
pads_done left = refl

pad_done : (left : ℕ) → decode_from (fourth left) 0 (pads 1) ≡ some []
unfolding decode_from kind pads
pad_done left = refl

missing-group : (n : ℕ) → missing (suc (suc (suc (suc n)))) ≡ missing n
missing-group n = omega arith

decode_from-bytes :
    (bs : List ℕ)
    → IsBytes bs
    → decode_from first 0 (letters (sextets bs) ++ pads (missing (length (letters (sextets bs)))))
      ≡ some bs
unfolding sextets
decode_from-bytes [] h = nothing_left
decode_from-bytes (a ∷ []) h = rw (decode_from-letter first 0 (a / 4) _ (omega arith)) (
    emit-nil _ _ (
      rw (decode_from-letter (second (a / 4)) 0 (a % 4 * 16) _ (omega arith))
        (emit-cons _ a [] _ (omega arith) (pads_done _))))
decode_from-bytes (a ∷ b ∷ []) h = rw (decode_from-letter first 0 (a / 4) _ (omega arith)) (
    emit-nil _ _ (
      rw (decode_from-letter (second (a / 4)) 0 (a % 4 * 16 + b / 16) _ (omega arith)) (
        emit-cons _ a _ _ (omega arith) (
          rw
            (decode_from-letter (third ((a % 4 * 16 + b / 16) % 16)) 0 (b % 16 * 4) _ (omega arith))
            (emit-cons _ b [] _ (omega arith) (pad_done _))))))
decode_from-bytes (a ∷ b ∷ c ∷ bytes) h =
    rw
      (
        missing-group (length (letters (sextets bytes))),
        decode_from-letter first 0 (a / 4) _ (omega arith),
      )
      (emit-nil _ _ (
        rw (decode_from-letter (second (a / 4)) 0 (a % 4 * 16 + b / 16) _ (omega arith)) (
          emit-cons _ a _ _ (omega arith) (
            rw
              (decode_from-letter (third ((a % 4 * 16 + b / 16) % 16)) 0 (b % 16 * 4 + c / 64) _
                (omega arith))
              (emit-cons _ b _ _ (omega arith) (
                rw
                  (decode_from-letter (fourth ((b % 16 * 4 + c / 64) % 4)) 0 (c % 64) _
                    (omega arith))
                  (emit-cons _ c _ _ (omega arith) (decode_from-bytes bytes h.1.1.1))))))))

is_ascii-append :
    (xs ys : List ℕ) → is_ascii xs ≡ true → is_ascii ys ≡ true → is_ascii (xs ++ ys) ≡ true
is_ascii-append [] ys p q = q
is_ascii-append (x ∷ xs) ys p q = ground (arith, is_ascii-append xs ys)

is_ascii-letters : (ns : List ℕ) → AreSextets ns → is_ascii (letters ns) ≡ true
is_ascii-letters [] h = refl
is_ascii-letters (n ∷ ns) h =
    ground (arith, letter-ascii n (kind (code (letter n))) refl h.0, is_ascii-letters ns h.1)

is_ascii-pads : (n : ℕ) → is_ascii (pads n) ≡ true
unfolding pads
is_ascii-pads zero = refl
is_ascii-pads (suc n) = is_ascii-pads n

decode_unpadded-codes :
    (s : String) (cs : List ℕ)
    → codes s ≡ cs
    → decode_unpadded s ≡ decode (cs ++ pads (missing (length cs)))
unfolding decode_unpadded
decode_unpadded-codes s cs e = ap (λ (t : List ℕ). decode (t ++ pads (missing (length t)))) e

decode-ascii : (cs : List ℕ) → is_ascii cs ≡ true → decode cs ≡ decode_from first 0 cs
unfolding decode
decode-ascii cs h = simp h refl

encode-letters :
    (bs : List ℕ) → IsBytes bs → codes (rstrip_padding (encode bs)) ≡ letters (sextets bs)
unfolding encode
encode-letters bs h =
    rstrip_padding-spell (sextets bs) (padding_of bs) (sextets-AreSextets bs h)
      (rstrip_padding-padding_of bs)

-- The bytes come back from their encoding without its padding.
pub decode_unpadded-encode :
    (bs : List ℕ) → IsBytes bs → decode_unpadded (rstrip_padding (encode bs)) ≡ some bs
decode_unpadded-encode bs h =
    let cs = letters (sextets bs) in
    decode_unpadded-codes (rstrip_padding (encode bs)) cs (encode-letters bs h)
    ∙ decode-ascii (cs ++ pads (missing (length cs))) (
        is_ascii-append cs (pads (missing (length cs)))
          (is_ascii-letters (sextets bs) (sextets-AreSextets bs h))
          (is_ascii-pads (missing (length cs))))
    ∙ decode_from-bytes bs h

test_encode : rstrip_padding (encode (77 ∷ 97 ∷ 110 ∷ 255 ∷ [])) ≡ "TWFu_w"
unfolding encode rstrip_padding letter
test_encode = refl
