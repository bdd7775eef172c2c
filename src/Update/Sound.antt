-- ===== src/Update/Sound.antt =====
-- What a journal that `load_intent` accepts gives to the commands.
use opemos.Prelude.{ℕ, suc, String, ◌≡◌, refl, Bool, true, inl, inr, some, List, [], ◌∷◌, arith, In}
use opemos.Prelude.Regex.{matches}
use opemos.Prelude.Results.{ok, >>-eq-ok}
use opemos.Update.Paths.{effect_target, kernel_name}
use opemos.Update.Journal.{
  boot_identities, check_row, check_rows, check_contents, check_intent, load_intent, distinct_paths,
  numbers_eq,
}
use opemos.Update.State.{Row, Phase, Intent, World, is_guardian}
use opemos.Update.Rows.{Distinct, distinct_paths-Distinct}

-- The checks of `load_intent` but those of the root and the phase.
pub record IsSound (i : Intent) : Type 0 where
  pub kernel : matches kernel_name i.kernel ≡ true
  pub contents : check_contents i ≡ ok tt

pub IsSound-phase : (i : Intent) (p : Phase) → IsSound i → IsSound (record i { phase = p })
unfolding check_contents boot_identities
IsSound-phase i p h = record { kernel = h.kernel; contents = h.contents }

pub load_intent-ok :
    (i : Intent) (w : World)
    → IsSound i
    → w.intent ≡ some i
    → numbers_eq i.root_identity w.root_identity ≡ true
    → load_intent w ≡ ok i
unfolding load_intent check_intent
load_intent-ok i w h journal root = rw journal (rw (h.kernel, root, h.contents) refl)

allowed_of_row :
    (kernel : String) (guardian : Bool) (index : ℕ) (r : Row)
    → check_row kernel guardian index r ≡ ok tt
    → effect_target r.path kernel guardian ≡ ok tt
unfolding check_row
allowed_of_row kernel guardian index r h = (>>-eq-ok (effect_target r.path kernel guardian) _ h).0

effects_of_rows :
    (kernel : String) (guardian : Bool) (index : ℕ) (rows : List Row)
    → check_rows kernel guardian index rows ≡ ok tt
    → (r : Row) → In r rows
    → effect_target r.path kernel guardian ≡ ok tt
unfolding check_rows
effects_of_rows kernel guardian index [] h r m = absurd m
effects_of_rows kernel guardian index (x ∷ rows) h r (inl e) =
    rw e
      (allowed_of_row kernel guardian index x (>>-eq-ok (check_row kernel guardian index x) _ h).0)
effects_of_rows kernel guardian index (x ∷ rows) h r (inr m) =
    effects_of_rows kernel guardian (suc index) rows
      (>>-eq-ok (check_row kernel guardian index x) _ h).1 r m

-- The last two checks of the contents.
sets_of_contents :
    (i : Intent)
    → check_contents i ≡ ok tt
    → (distinct_paths i.files ≡ true)
      × (check_rows i.kernel (is_guardian i.action) 0 i.files ≡ ok tt)
unfolding check_contents
sets_of_contents i h = (ground arith, ground arith)

pub IsSound-effects :
    (i : Intent)
    → IsSound i
    → (r : Row) → In r i.files
    → effect_target r.path i.kernel (is_guardian i.action) ≡ ok tt
IsSound-effects i h =
    effects_of_rows i.kernel (is_guardian i.action) 0 i.files (sets_of_contents i h.contents).1

pub IsSound-Distinct : (i : Intent) → IsSound i → Distinct i.files
IsSound-Distinct i h = distinct_paths-Distinct i.files (sets_of_contents i h.contents).0
