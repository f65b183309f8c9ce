-- ===== src/Whitelist/File.antt =====
-- rdp_proxy/whitelist.py: the JSON document of the file or secret. `json.loads` and `json.dumps` stand between
-- the text and the value `Json`; a time is in milliseconds.
pub mod Payload
pub mod Fill
pub mod Stored
pub mod Keeps
mod Tests
use Prim.Native.Nat.{Ordering}
use Prim.Native.String.{compare}
use rdp_on_demand_proxy_serv.Base.{
  ℕ, suc, ◌+◌, String, Bool, true, false, Option, none, some, List, [], ◌∷◌, map, ltb, leb, nat_eq,
  not, if◌then◌else◌, seconds, ◌==◌,
}
use rdp_on_demand_proxy_serv.Base.Dict.{Dict, get, put, values}
use rdp_on_demand_proxy_serv.Base.Sort.{sort_desc, sort_by}
use rdp_on_demand_proxy_serv.Whitelist.{Codec, Entry, Rejection, Content}

mutual
  pub data Json : Type 0 where
    null : Json
    flag : Bool → Json
    number : ℕ → Json
    text : String → Json
    array : Jsons → Json
    object : Fields → Json

  pub data Jsons : Type 0 where
    last : Jsons
    item : Json → Jsons → Jsons

  pub data Fields : Type 0 where
    end : Fields
    field : String → Json → Fields → Fields

-- `decrypt_ip` is none where `_decrypt_ip` raises ValueError; `text_of` is `str` of a value that is no text;
-- `float_of` and `int_of` read a text, none where they raise.
pub record Reader : Type 0 where
  pub codec : Codec
  pub decrypt_ip : String → Option String
  pub text_of : Json → String
  pub float_of : String → Option ℕ
  pub int_of : String → Option ℕ

abbrev pub items : Jsons → List Json
items last = []
items (item j js) = j ∷ items js

abbrev pub array_of : List Json → Jsons
array_of [] = last
array_of (j ∷ js) = item j (array_of js)

abbrev or_later : Option Json → String → String → Json → Option Json
or_later (some v) j k w = some v
or_later none j k w = if j == k then some w else none

-- Of two fields with one name the later counts.
unfoldable pub find : Fields → String → Option Json
find end k = none
find (field j w fs) k = or_later (find fs k) j k w

abbrev pub str_of : Reader → Json → String
str_of r (text t) = t
str_of r null = r.text_of null
str_of r (flag b) = r.text_of (flag b)
str_of r (number n) = r.text_of (number n)
str_of r (array js) = r.text_of (array js)
str_of r (object fs) = r.text_of (object fs)

abbrev str_or_empty : Reader → Option Json → String
str_or_empty r none = ""
str_or_empty r (some j) = str_of r j

-- str(item.get(name, "")).strip()
abbrev pub stripped : Reader → Fields → String → String
stripped r fs name = r.codec.strip (str_or_empty r (find fs name))

-- float(item.get(name, 0.0) or 0.0)
abbrev pub float_or_zero : Reader → Option Json → Option ℕ
float_or_zero r none = some 0
float_or_zero r (some null) = some 0
float_or_zero r (some (flag b)) = some (if b then seconds 1 else 0)
float_or_zero r (some (number n)) = some n
float_or_zero r (some (text t)) = if t == "" then some 0 else r.float_of t
float_or_zero r (some (array last)) = some 0
float_or_zero r (some (array (item j js))) = none
float_or_zero r (some (object end)) = some 0
float_or_zero r (some (object (field k j fs))) = none

-- int(item.get(name, 1) or 1)
abbrev pub int_or_one : Reader → Option Json → Option ℕ
int_or_one r none = some 1
int_or_one r (some null) = some 1
int_or_one r (some (flag b)) = some 1
int_or_one r (some (number n)) = some (if nat_eq n 0 then 1 else n)
int_or_one r (some (text t)) = if t == "" then some 1 else r.int_of t
int_or_one r (some (array last)) = some 1
int_or_one r (some (array (item j js))) = none
int_or_one r (some (object end)) = some 1
int_or_one r (some (object (field k j fs))) = none

abbrev or_empty : Option String → String
or_empty none = ""
or_empty (some t) = t

abbrev pub read_ip : Reader → String → String
read_ip r value = if value == "" then "" else or_empty (r.decrypt_ip value)

abbrev with_time : Reader → String → String → String → Option ℕ → Option Entry
with_time r cipher value source none = none
with_time r cipher value source (some added_at) = some (record {
  cipher = cipher;
  ip = read_ip r value;
  value = value;
  added_at = added_at;
  source = source;
  legacy = read_ip r value == "";
})

-- What an item of a list is: it is passed over, or read, or it raises.
pub data Read {ℓ} (A : Type ℓ) : Type ℓ where
  skipped raises : Read A
  reads : A → Read A

abbrev read_of {ℓ} : {A : Type ℓ} → Option A → Read A
read_of none = raises
read_of (some a) = reads a

unfoldable pub decode_entry : Reader → Json → Read Entry
unfolding find
decode_entry r (object fs) =
    if stripped r fs "cipher" == ""
    then skipped
    else read_of (
        with_time r (stripped r fs "cipher") (stripped r fs "value") (stripped r fs "source")
          (float_or_zero r (find fs "added_at")))
decode_entry r other = skipped

abbrev counted_rejection : String → String → String → Option ℕ → Option ℕ → Option Rejection
counted_rejection ip geo target none seen = none
counted_rejection ip geo target (some n) none = none
counted_rejection ip geo target (some n) (some at) =
    some (record { ip = ip; geo = geo; target = target; count = n; last_seen_at = at })

abbrev rejection_of : Reader → Fields → Option String → Read Rejection
rejection_of r fs none = skipped
rejection_of r fs (some ip) = read_of (
    counted_rejection ip (stripped r fs "geo") (stripped r fs "target")
      (int_or_one r (find fs "count")) (float_or_zero r (find fs "last_seen_at")))

unfoldable pub decode_rejection : Reader → Json → Read Rejection
unfolding find
decode_rejection r (object fs) =
    if stripped r fs "ip" == ""
    then skipped
    else rejection_of r fs (r.codec.normalize_ip (stripped r fs "ip"))
decode_rejection r other = skipped
