-- ===== src/Retention/Generations.antt =====
-- `main` of lib/prune_backup_generations.py: which entries of the backup root are removed.
use Prim.Native.String.{compare}
use text.Mathlib.Text.{is_le}
use opemos.Prelude.{
  ℕ, suc, ◌-◌, ◌*◌, String, Bool, not, ◌&&◌, ◌||◌, none, List, [], ◌∷◌, str_eq, ◌==◌, ltb, leb,
  if◌then◌else◌,
}
use opemos.Prelude.Regex.{Regex, class, seq, rep, word, optional, exactly, digit, alnum, matches}
use opemos.Prelude.Results.{Result, ok, need, ◌>>◌}

-- `(?:uninstall-)?[0-9]{8}-[0-9]{6}\.[A-Za-z0-9]{6}`
abbrev pub generation_pattern : Regex
generation_pattern = seq (optional (word "uninstall-")) (
    seq (exactly 8 (class digit))
      (seq (word "-") (seq (exactly 6 (class digit)) (seq (word ".") (rep 6 none (class alnum))))))

-- An entry of the root: whether it is a symbolic link, whether it resolves to a place below the
-- root and has metadata, whether it is a directory, and its modification time in nanoseconds.
pub record Entry : Type 0 where
  pub name : String
  pub is_link : Bool
  pub resolves : Bool
  pub is_dir : Bool
  pub modified : ℕ

abbrev pub is_generation : Entry → Bool
is_generation e = matches generation_pattern e.name && not e.is_link && e.resolves && e.is_dir

abbrev pub generations : List Entry → List Entry
generations [] = []
generations (e ∷ entries) =
    let rest = generations entries in if is_generation e then e ∷ rest else rest

-- The order of `(modified, name)`, `e` not before `other`.
abbrev pub newer : Entry → Entry → Bool
newer e other =
    ltb other.modified e.modified
    || (other.modified == e.modified && is_le (compare other.name e.name))

abbrev pub insert : Entry → List Entry → List Entry
insert e [] = e ∷ []
insert e (other ∷ rest) =
    let later = insert e rest in if newer e other then e ∷ other ∷ rest else other ∷ later

-- `generations.sort(reverse=True)`
abbrev pub newest_first : List Entry → List Entry
newest_first [] = []
newest_first (e ∷ entries) = insert e (newest_first entries)

module _ (protect : String) (keep cutoff : ℕ) where
  abbrev pub is_kept : ℕ → Entry → Bool
  is_kept retained e = str_eq e.name protect || (ltb retained keep && leb cutoff e.modified)

  -- The loop: the entries that `shutil.rmtree` is called on.
  unfoldable pub sweep : ℕ → List Entry → List Entry
  sweep retained [] = []
  sweep retained (e ∷ entries) =
      let rest = sweep (if is_kept retained e then suc retained else retained) entries in
      if is_kept retained e then rest else e ∷ rest

abbrev pub day : ℕ
day = 24 * 60 * 60 * 1_000_000_000

-- `main`, on a root that is a directory. A time before the first one is a cutoff at zero.
unfoldable pub prune : String → ℕ → ℕ → ℕ → List Entry → Result (List Entry)
prune protect keep max_age_days now entries = do
  need
      (leb 1 keep
        && leb keep 100
        && leb 1 max_age_days
        && leb max_age_days 3650
        && matches generation_pattern protect)
      "backup retention arguments are unsafe"
  ok (sweep protect keep (now - max_age_days * day) 0 (newest_first (generations entries)))
