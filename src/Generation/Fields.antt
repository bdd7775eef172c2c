-- ===== src/Generation/Fields.antt =====
-- The checks of single fields in lib/userspace_lock_generation_contract.py. A document is read field
-- by field, and what is read is kept.
use opemos.Prelude.{
  ℕ, ◌+◌, ◌-◌, ◌^◌, String, Bool, true, false, not, ◌&&◌, ◌||◌, Option, none, some, List, [], ◌∷◌,
  map, str_eq, ◌==◌, leb, if◌then◌else◌, any,
}
use opemos.Prelude.Regex.{
  Regex, class, seq, alt, rep, exactly, plus, optional, word, digit, lower, upper, alnum, between,
  hex, one_of, codes, matches,
}
use opemos.Prelude.Results.{Result, ok, err, need, ◌>>=◌, ◌>>◌}
use opemos.Prelude.Json.{
  null, Json, Fields, Items, nil, cons, arr, bool, item, as_match, as_natural, as_string, is_one,
}
use opemos.Prelude.Clock.{zulu_instant}

abbrev pub max_sequence : ℕ
max_sequence = 2 ^ 64 - 1

-- `SHA256`, `FINGERPRINT`, `PLAIN_FILENAME`, `VERSION` and `KERNEL`
abbrev pub sha256 : Regex
sha256 = exactly 64 (class hex)

abbrev upper_hex : ℕ → Bool
upper_hex c = digit c || between 65 70 c

abbrev pub fingerprint : Regex
fingerprint = alt (exactly 40 (class upper_hex)) (exactly 64 (class upper_hex))

abbrev pub plain_name : Regex
plain_name = rep 1 (some 255) (class (λ c. alnum c || one_of "@._+~-" c))

abbrev pub version : Regex
version =
    seq (plus (class digit))
      (seq (word ".") (seq (plus (class digit)) (optional (seq (word ".") (plus (class digit))))))

abbrev pub kernel : Regex
kernel = rep 1 (some 255) (class (λ c. alnum c || one_of "._+~-" c))

-- `WINDOWS_RESERVED_NAMES`, as code points.
abbrev pub reserved_names : List (List ℕ)
reserved_names = map codes (
    "CON" ∷ "PRN" ∷ "AUX" ∷ "NUL" ∷ "COM1" ∷ "COM2" ∷ "COM3" ∷ "COM4" ∷ "COM5" ∷ "COM6" ∷ "COM7"
    ∷ "COM8" ∷ "COM9" ∷ "LPT1" ∷ "LPT2" ∷ "LPT3" ∷ "LPT4" ∷ "LPT5" ∷ "LPT6" ∷ "LPT7" ∷ "LPT8"
    ∷ "LPT9" ∷ [])

abbrev pub codes_eq : List ℕ → List ℕ → Bool
codes_eq [] [] = true
codes_eq (c ∷ cs) (d ∷ ds) = c == d && codes_eq cs ds
codes_eq _ _ = false

-- `value.endswith(suffix)`
abbrev pub ends_in : List ℕ → List ℕ → Bool
ends_in suffix [] = codes_eq suffix []
ends_in suffix (c ∷ cs) = codes_eq suffix (c ∷ cs) || ends_in suffix cs

-- `value.split(".", 1)[0].upper()`, of a text in ASCII.
abbrev pub stem : List ℕ → List ℕ
stem [] = []
stem (c ∷ cs) =
    let rest = stem cs in if c == b'.' then [] else (if lower c then c - 32 else c) ∷ rest

-- `value.casefold()`, of a text in ASCII.
abbrev pub casefold : List ℕ → List ℕ
casefold [] = []
casefold (c ∷ cs) = (if upper c then c + 32 else c) ∷ casefold cs

-- `_plain_filename`, of a text.
unfoldable pub plain_filename : String → Bool
plain_filename name =
    matches plain_name name
    && not (str_eq name "." || str_eq name "..")
    && not (ends_in (codes ".") (codes name))
    && not (any (codes_eq (stem (codes name))) reserved_names)

-- `document.get(key) == "..."`, and refused otherwise.
unfoldable pub text_is : String → String → String → Fields → Result (Unit {0})
text_is message key expected fields = do
  value ← item key fields
  s ← as_string message value
  need (str_eq s expected) message

-- `document.get(key) == 1`, which `True` satisfies too.
abbrev pub equals_one : Json → Bool
equals_one (bool b) = b
equals_one value = is_one value

unfoldable pub one_at : String → String → Fields → Result (Unit {0})
one_at message key fields = do value ← item key fields; need (equals_one value) message

-- A text that a pattern matches.
unfoldable pub match_at : Regex → String → String → Fields → Result String
match_at pattern message key fields = do value ← item key fields; as_match pattern message value

-- `_plain_filename(document.get(key))`
unfoldable pub filename_at : String → String → Fields → Result String
filename_at message key fields = do
  value ← item key fields
  s ← as_string message value
  need (plain_filename s) message
  ok s

-- `_positive_integer(document.get(key), maximum)`
unfoldable pub positive_at : String → String → ℕ → Fields → Result ℕ
positive_at message key maximum fields = do
  value ← item key fields
  n ← as_natural message value
  need (leb 1 n && leb n maximum) message
  ok n

-- `_timestamp(document.get(key))`, with the text.
unfoldable pub time_at : String → String → Fields → Result String
time_at message key fields = do
  value ← item key fields
  s ← as_string message value
  elim (zulu_instant s) [ none ↦ err message | some t ↦ ok s ]

-- `validate_predecessor`
unfoldable pub predecessor_of : ℕ → Json → Result (Option String)
predecessor_of sequence null =
    if sequence == 1 then ok none else err "generation predecessor is missing or invalid"
predecessor_of sequence value =
    if sequence == 1
    then err "first generation cannot name a predecessor"
    else do s ← as_match sha256 "generation predecessor is missing or invalid" value; ok (some s)

abbrev pub as_list : String → Json → Result Items
as_list message (arr items) = ok items
as_list message _ = err message

abbrev pub count_items : Items → ℕ
count_items nil = 0
count_items (cons value rest) = 1 + count_items rest

-- A check of every item in turn, with what is read.
unfoldable pub each {ℓ} : {A : Type ℓ} → (Json → Result A) → Items → Result (List A)
each check nil = ok []
each check (cons value rest) = check value >>= λ a. each check rest >>= λ later. ok (a ∷ later)
