-- ===== src/Intent/Contract.antt =====
-- `validate_source` and `validate_intent` of lib/source_intent_contract.py.
use opemos.Prelude.{ℕ, String, Bool, ◌&&◌, ◌||◌, some, [], ◌∷◌, str_eq, leb, length, if◌then◌else◌}
use opemos.Prelude.Regex.{
  Regex, class, seq, rep, plus, exactly, word, digit, alnum, hex, one_of, codes,
}
use opemos.Prelude.Results.{Result, ok, err, need, ◌>>=◌, ◌>>◌}
use opemos.Prelude.Json.{Json, null, has_keys, item, as_object, as_string, as_bool, is_one}
use opemos.Generation.Fields.{text_is, match_at}

-- `VERSION`, `STEAMOS`, `KERNEL`, `COMMIT`, `TAG` and `REPOSITORY`
abbrev pub dotted : ℕ → ℕ → Regex
dotted least most =
    seq (plus (class digit)) (rep least (some most) (seq (word ".") (plus (class digit))))

abbrev pub version : Regex
version = dotted 1 2

abbrev pub steamos : Regex
steamos = dotted 2 2

abbrev pub kernel : Regex
kernel = rep 1 (some 255) (class (λ c. alnum c || one_of "._+~-" c))

abbrev pub commit : Regex
commit = exactly 40 (class hex)

abbrev pub tag : Regex
tag = rep 1 (some 1024) (class (λ c. alnum c || one_of "._+~-" c))

abbrev pub repository : Regex
repository =
    seq (plus (class (λ c. alnum c || one_of "_.-" c)))
      (seq (word "/") (plus (class (λ c. alnum c || one_of "_.-" c))))

pub record Source : Type 0 where
  pub repository : String
  pub ref : String
  pub commit : String

abbrev pub source_eq : Source → Source → Bool
source_eq a b = str_eq a.repository b.repository && str_eq a.ref b.ref && str_eq a.commit b.commit

-- `validate_source(source)`
unfoldable pub validate_source : Json → Result Source
validate_source value = do
  fields ← as_object "source identity is invalid" value
  need (has_keys ("repository" ∷ "ref" ∷ "commit" ∷ []) fields) "source identity is invalid"
  place ← match_at repository "source identity is invalid" "repository" fields
  need (leb (length (codes place)) 255) "source identity is invalid"
  ref_value ← item "ref" fields
  ref ← as_string "source identity is invalid" ref_value
  need (leb 1 (length (codes ref)) && leb (length (codes ref)) 1024) "source identity is invalid"
  hash ← match_at commit "source identity is invalid" "commit" fields
  ok (record { repository = place; ref = ref; commit = hash })

-- A mode with its selection; a development source has the acknowledgement, too.
pub data Selection : Type 0 where
  automatic : Selection
  exact_published_artifact : String → Selection
  exact_target_local_build : String → Selection
  reviewed_project_source : String → Source → Selection
  upstream_development : String → Source → Bool → Selection

pub record Intent : Type 0 where
  pub steamos : String
  pub kernel : String
  pub selection : Selection

-- `target`, with the version of SteamOS and the kernel.
unfoldable pub validate_target : Json → Result (String × String)
validate_target value = do
  fields ← as_object "source intent target is invalid" value
  need (has_keys ("steamosVersion" ∷ "kernelVersion" ∷ "architecture" ∷ []) fields)
      "source intent target is invalid"
  os ← match_at steamos "source intent target is invalid" "steamosVersion" fields
  release ← match_at kernel "source intent target is invalid" "kernelVersion" fields
  text_is "source intent target is invalid" "architecture" "x86_64" fields
  ok (os, release)

abbrev pub no_selection : Json → Result Selection
no_selection null = ok automatic
no_selection value = err "automatic source intent cannot contain a selection"

unfoldable pub published_selection : Json → Result Selection
published_selection value = do
  fields ← as_object "published source selection is invalid" value
  need (has_keys ("releaseTag" ∷ []) fields) "published source selection is invalid"
  name ← match_at tag "published source selection is invalid" "releaseTag" fields
  ok (exact_published_artifact name)

unfoldable pub build_selection : Json → Result Selection
build_selection value = do
  fields ← as_object "exact-target build selection is invalid" value
  need (has_keys ("nvidiaVersion" ∷ []) fields) "exact-target build selection is invalid"
  nvidia ← match_at version "exact-target build selection is invalid" "nvidiaVersion" fields
  ok (exact_target_local_build nvidia)

unfoldable pub project_selection : Json → Result Selection
project_selection value = do
  fields ← as_object "reviewed project selection is invalid" value
  need (has_keys ("nvidiaVersion" ∷ "source" ∷ []) fields) "reviewed project selection is invalid"
  nvidia ← match_at version "reviewed project selection is invalid" "nvidiaVersion" fields
  source_value ← item "source" fields
  source ← validate_source source_value
  ok (reviewed_project_source nvidia source)

unfoldable pub development_selection : Json → Result Selection
development_selection value = do
  fields ← as_object "upstream development selection is invalid" value
  need (has_keys ("nvidiaVersion" ∷ "source" ∷ "developmentAcknowledged" ∷ []) fields)
      "upstream development selection is invalid"
  nvidia ← match_at version "upstream development selection is invalid" "nvidiaVersion" fields
  flag_value ← item "developmentAcknowledged" fields
  flag ← as_bool "upstream development selection is invalid" flag_value
  source_value ← item "source" fields
  source ← validate_source source_value
  ok (upstream_development nvidia source flag)

-- The selection, by the mode; `MODES` are the five names.
unfoldable pub selection_of : String → Json → Result Selection
selection_of mode value =
    if str_eq mode "automatic"
    then no_selection value
    else if str_eq mode "exact-published-artifact"
    then published_selection value
    else if str_eq mode "exact-target-local-build"
    then build_selection value
    else if str_eq mode "reviewed-project-source"
    then project_selection value
    else if str_eq mode "upstream-development"
    then development_selection value
    else err "source intent identity is invalid"

unfoldable pub validate_intent : Json → Result Intent
validate_intent value = do
  fields ← as_object "source intent identity is invalid" value
  need (has_keys ("schemaVersion" ∷ "kind" ∷ "mode" ∷ "target" ∷ "selection" ∷ []) fields)
      "source intent identity is invalid"
  schema ← item "schemaVersion" fields
  need (is_one schema) "source intent identity is invalid"
  text_is "source intent identity is invalid" "kind" "opemos-source-intent" fields
  mode_value ← item "mode" fields
  mode ← as_string "source intent identity is invalid" mode_value
  target_value ← item "target" fields
  target ← validate_target target_value
  selection_value ← item "selection" fields
  selection ← selection_of mode selection_value
  ok (record { steamos = target.0; kernel = target.1; selection = selection })
