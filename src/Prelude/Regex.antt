-- ===== src/Prelude/Regex.antt =====
-- The regular expressions of the source, matched by `re.fullmatch` over the code points of a text.
use Prim.Native.Nat.{ℕ, zero, suc, pred}
use Prim.Native.Char.{code}
use Prim.Native.String.{String}
use mathlib.Core.Path.{◌≡◌, refl}
use mathlib.Core.Bool.{Bool, true, false, ◌&&◌, ◌||◌}
use mathlib.Core.Option.{Option, none, some}
use mathlib.Core.List.{List, [], ◌∷◌}
use opemos.Prelude.Tests.{leb, ◌==◌, if◌then◌else◌}
use opemos.Prelude.Lists.{any}

-- `rep m n r` is `r{m,n}`; with `none` for `n` it is `r{m,}`.
pub data Regex : Type 0 where
  never empty : Regex
  class : (ℕ → Bool) → Regex
  seq alt : Regex → Regex → Regex
  rep : ℕ → Option ℕ → Regex → Regex

abbrev pub codes : String → List ℕ
codes String.[] = []
codes (String.◌∷◌ c s) = code c ∷ codes s

abbrev pub between : ℕ → ℕ → ℕ → Bool
between lo hi c = leb lo c && leb c hi

-- One of the characters of a text.
abbrev pub one_of : String → ℕ → Bool
one_of s c = any (λ d. d == c) (codes s)

abbrev pub digit : ℕ → Bool
digit = between 48 57

abbrev pub lower : ℕ → Bool
lower = between 97 122

abbrev pub upper : ℕ → Bool
upper = between 65 90

abbrev pub alnum : ℕ → Bool
alnum c = digit c || lower c || upper c

-- `[0-9a-f]`
abbrev pub hex : ℕ → Bool
hex c = digit c || between 97 102 c

-- A literal text.
abbrev pub word : String → Regex
word String.[] = empty
word (String.◌∷◌ c s) = seq (class (λ d. d == code c)) (word s)

abbrev pub plus : Regex → Regex
plus = rep 1 none

abbrev pub optional : Regex → Regex
optional = rep 0 (some 1)

abbrev pub exactly : ℕ → Regex → Regex
exactly n = rep n (some n)

nullable : Regex → Bool
nullable never = false
nullable empty = true
nullable (class test) = false
nullable (seq r s) = nullable r && nullable s
nullable (alt r s) = nullable r || nullable s
nullable (rep zero n r) = true
nullable (rep (suc m) n r) = nullable r

-- What must follow once `c` has been read; the parts that cannot match are dropped.
cat : Regex → Regex → Regex
cat never s = never
cat empty s = s
cat r s = seq r s

either : Regex → Regex → Regex
either never s = s
either r never = r
either r s = alt r s

after : ℕ → Regex → Regex
unfolding nullable cat either
after c never = never
after c empty = never
after c (class test) = if test c then empty else never
after c (seq r s) =
    let rest = after c s in
    let head = cat (after c r) s in if nullable r then either head rest else head
after c (alt r s) = either (after c r) (after c s)
after c (rep m (some zero) r) = never
after c (rep m (some (suc n)) r) = cat (after c r) (rep (pred m) (some n) r)
after c (rep m none r) = cat (after c r) (rep (pred m) none r)

match_codes : Regex → List ℕ → Bool
match_codes r [] = nullable r
match_codes r (c ∷ cs) = match_codes (after c r) cs

-- `re.fullmatch(r, s) is not None`
unfoldable pub matches : Regex → String → Bool
unfolding match_codes after
matches r s = match_codes r (codes s)

version_matches :
    matches (seq (plus (class digit)) (optional (seq (word ".") (plus (class digit))))) "575.64"
    ≡ true
unfolding matches
version_matches = refl
