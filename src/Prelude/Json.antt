-- ===== src/Prelude/Json.antt =====
-- JSON values as Python's `json` reads them, and the text that `json.dumps` with sorted keys, the
-- separators `,` and `:` and ASCII output writes. Numbers that are not integers are left out.
use Prim.Native.Nat.{ℕ, zero, suc, ◌+◌, ◌-◌, ◌/◌, ◌%◌}
use Prim.Native.String.{String, compare}
use text.Mathlib.Text.{◌==◌ as str_eq, is_le}
use mathlib.Core.Path.{◌≡◌, refl}
use mathlib.Core.Bool.{Bool, true, false, ◌&&◌, ◌||◌}
use mathlib.Core.Option.{Option, none, some}
use mathlib.Core.List.{List, [], ◌∷◌, ◌++◌}
use opemos.Prelude.Tests.{ltb, leb, ◌==◌, if◌then◌else◌}
use opemos.Prelude.Lists.{all, any}
use opemos.Prelude.Regex.{Regex, codes, matches}
use opemos.Prelude.Results.{Result, ok, err, need, ◌>>=◌, ◌>>◌}

-- `negsuc n` is -(n + 1).
pub data ℤ : Type 0 where
  pos : ℕ → ℤ
  negsuc : ℕ → ℤ

mutual
  pub data Json : Type 0 where
    null : Json
    bool : Bool → Json
    int : ℤ → Json
    str : String → Json
    arr : Items → Json
    obj : Fields → Json

  pub data Items : Type 0 where
    nil : Items
    cons : Json → Items → Items

  pub data Fields : Type 0 where
    end : Fields
    field : String → Json → Fields → Fields

-- `document.get(key)`
abbrev pub get : String → Fields → Option Json
get key end = none
get key (field name value rest) = if str_eq name key then some value else get key rest

abbrev pub keys : Fields → List String
keys end = []
keys (field name value rest) = name ∷ keys rest

-- `set(document) == {...}`
abbrev pub has_keys : List String → Fields → Bool
has_keys names fields =
    all (λ name. any (λ key. str_eq key name) (keys fields)) names
    && all (λ key. any (λ name. str_eq key name) names) (keys fields)

-- `document[key]`; a missing key raises `KeyError`.
abbrev pub item : String → Fields → Result Json
item key fields = elim (get key fields) [ none ↦ err "KeyError" | some value ↦ ok value ]

abbrev pub as_object : String → Json → Result Fields
as_object message (obj fields) = ok fields
as_object message _ = err message

abbrev pub as_string : String → Json → Result String
as_string message (str s) = ok s
as_string message _ = err message

abbrev pub as_bool : String → Json → Result Bool
as_bool message (bool b) = ok b
as_bool message _ = err message

-- `type(value) is int and value >= 0`
abbrev pub as_natural : String → Json → Result ℕ
as_natural message (int (pos n)) = ok n
as_natural message _ = err message

-- `value == 1 and not isinstance(value, bool)`
abbrev pub is_one : Json → Bool
is_one (int (pos n)) = n == 1
is_one _ = false

-- `isinstance(value, str) and pattern.fullmatch(value)`
abbrev pub as_match : Regex → String → Json → Result String
as_match pattern message value = do
  s ← as_string message value
  need (matches pattern s) message
  ok s

-- Decimal digits; as much fuel as the number itself is enough.
decimal : ℕ → ℕ → List ℕ → List ℕ
decimal zero n out = out
decimal (suc fuel) n out =
    let more = decimal fuel (n / 10) ((48 + n % 10) ∷ out) in
    if n / 10 == 0 then (48 + n % 10) ∷ out else more

hex_digit : ℕ → ℕ
hex_digit d = if ltb d 10 then 48 + d else 87 + d

-- A backslash, `u` and four hexadecimal digits.
unicode : ℕ → List ℕ
unfolding hex_digit
unicode c =
    92
    ∷ 117
    ∷ hex_digit (c / 4096 % 16)
    ∷ hex_digit (c / 256 % 16)
    ∷ hex_digit (c / 16 % 16)
    ∷ hex_digit (c % 16)
    ∷ []

escape : ℕ → List ℕ
unfolding unicode
escape c =
    if c == 34 || c == 92
    then 92 ∷ c ∷ []
    else if c == 10
    then 92 ∷ 110 ∷ []
    else if c == 13
    then 92 ∷ 114 ∷ []
    else if c == 9
    then 92 ∷ 116 ∷ []
    else if c == 8
    then 92 ∷ 98 ∷ []
    else if c == 12
    then 92 ∷ 102 ∷ []
    else if leb 32 c && leb c 126
    then c ∷ []
    else if leb c 65535
    then unicode c
    else unicode (55296 + (c - 65536) / 1024) ++ unicode (56320 + (c - 65536) % 1024)

escapes : List ℕ → List ℕ
unfolding escape
escapes [] = []
escapes (c ∷ cs) = escape c ++ escapes cs

quoted : String → List ℕ
unfolding escapes
quoted s = 34 ∷ (escapes (codes s) ++ (34 ∷ []))

-- The members of an object in the order of their keys.
insert_member : String → List ℕ → List (String × List ℕ) → List (String × List ℕ)
insert_member name text [] = (name, text) ∷ []
insert_member name text ((other, w) ∷ rest) =
    let later = insert_member name text rest in
    if is_le (compare name other) then (name, text) ∷ (other, w) ∷ rest else (other, w) ∷ later

commas : List (List ℕ) → List ℕ
commas [] = []
commas (x ∷ []) = x
commas (x ∷ y ∷ rest) = x ++ (44 ∷ commas (y ∷ rest))

members : List (String × List ℕ) → List (List ℕ)
unfolding quoted
members [] = []
members ((name, text) ∷ rest) = (quoted name ++ (58 ∷ text)) ∷ members rest

-- The code points of `json.dumps(value, sort_keys=True, separators=(",", ":"))`.
unfoldable mutual
  unfolding decimal quoted insert_member commas members

  pub render : Json → List ℕ
  render null = codes "null"
  render (bool true) = codes "true"
  render (bool false) = codes "false"
  render (int (pos n)) = decimal (suc n) n []
  render (int (negsuc n)) = 45 ∷ decimal (suc (suc n)) (suc n) []
  render (str s) = quoted s
  render (arr items) = 91 ∷ (commas (render_items items) ++ (93 ∷ []))
  render (obj fields) = 123 ∷ (commas (members (render_fields fields)) ++ (125 ∷ []))

  render_items : Items → List (List ℕ)
  render_items nil = []
  render_items (cons value rest) = render value ∷ render_items rest

  render_fields : Fields → List (String × List ℕ)
  render_fields end = []
  render_fields (field name value rest) = insert_member name (render value) (render_fields rest)

render_sorted :
    render (
      obj
        (field "b" (int (pos 120)) (field "a" (arr (cons (bool true) (cons (str "x\"") nil))) end)))
    ≡ codes "{\"a\":[true,\"x\\\"\"],\"b\":120}"
unfolding render
render_sorted = refl
