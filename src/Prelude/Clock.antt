-- ===== src/Prelude/Clock.antt =====
-- Texts that write an instant: the calendar that `datetime.fromisoformat` and `strptime` check, and
-- the patterns of lib/recovery_transaction.py and lib/userspace_lock_generation_contract.py. An
-- instant is a number that grows with the date and the time.
use Prim.Native.Nat.{ℕ, zero, suc, ◌+◌, ◌-◌, ◌*◌, ◌%◌}
use Prim.Native.String.{String}
use mathlib.Core.Path.{◌≡◌, refl}
use mathlib.Core.Bool.{Bool, not, ◌&&◌, ◌||◌}
use mathlib.Core.Option.{Option, none, some}
use mathlib.Core.List.{List, [], ◌∷◌}
use opemos.Prelude.Tests.{◌==◌, ltb, leb, if◌then◌else◌}
use opemos.Prelude.Regex.{Regex, class, seq, exactly, word, digit, codes, matches}

abbrev two_digits : Regex
two_digits = exactly 2 (class digit)

-- `[0-9]{4}-[0-9]{2}-[0-9]{2}T[0-9]{2}:[0-9]{2}:[0-9]{2}` and the zone
abbrev pub timestamp : String → Regex
timestamp zone = seq (exactly 4 (class digit)) (
    seq (word "-") (
      seq two_digits (
        seq (word "-") (
          seq two_digits (
            seq (word "T") (
              seq two_digits (
                seq (word ":") (seq two_digits (seq (word ":") (seq two_digits (word zone)))))))))))

-- The number that the digits at a place of the text write.
skip : ℕ → List ℕ → List ℕ
skip zero cs = cs
skip (suc n) [] = []
skip (suc n) (c ∷ cs) = skip n cs

number : ℕ → ℕ → List ℕ → ℕ
number zero value cs = value
number (suc n) value [] = value
number (suc n) value (c ∷ cs) = number n (value * 10 + (c - 48)) cs

part : ℕ → ℕ → String → ℕ
unfolding skip number
part start count text = number count 0 (skip start (codes text))

leap : ℕ → Bool
leap year = year % 4 == 0 && (not (year % 100 == 0) || year % 400 == 0)

days : ℕ → ℕ → ℕ
unfolding leap
days year month =
    if month == 2
    then (if leap year then 29 else 28)
    else if month == 4 || month == 6 || month == 9 || month == 11
    then 30
    else 31

-- `none` where the text is no instant.
unfoldable instant_at : String → String → Option ℕ
unfolding part days matches
instant_at zone text =
    let year = part 0 4 text in
    let month = part 5 2 text in
    let day = part 8 2 text in
    let hour = part 11 2 text in
    let minute = part 14 2 text in
    let second = part 17 2 text in
    if matches (timestamp zone) text
      && leb 1 year
      && leb 1 month
      && leb month 12
      && leb 1 day
      && leb day (days year month)
      && ltb hour 24
      && ltb minute 60
      && ltb second 60
    then some (((((year * 13 + month) * 32 + day) * 24 + hour) * 60 + minute) * 60 + second)
    else none

unfoldable pub instant : String → Option ℕ
unfolding instant_at
instant text = instant_at "+00:00" text

-- The same with `Z` for the zone.
unfoldable pub zulu_instant : String → Option ℕ
unfolding instant_at
zulu_instant text = instant_at "Z" text

leap_day :
    (instant "2023-02-29T00:00:00+00:00" ≡ none)
    × (instant "2024-02-29T00:00:00+00:00" ≡ some 72755452800)
unfolding instant
leap_day = (refl, refl)
