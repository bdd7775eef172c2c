-- ===== src/Intent/Decision.antt =====
-- `decision` of lib/source_intent_contract.py. The resolver and the table of build plans of
-- lib/resolve_target.py are its interface `Resolver`.
use Prim.Native.String.{◌++◌}
use opemos.Prelude.{
  String, Bool, false, ◌&&◌, Option, none, some, List, [], ◌∷◌, str_eq, if◌then◌else◌,
}
use opemos.Prelude.Results.{Result, ok, err}
use opemos.Prelude.Json.{Json, str, obj, get}
use opemos.Intent.Contract.{
  Source, source_eq, automatic, exact_published_artifact, exact_target_local_build,
  reviewed_project_source, upstream_development, Intent, validate_intent,
}

-- What `resolve_target` answers: a publication with its tag, or else the action that is next, if any.
pub data Resolved : Type 0 where
  resolver_error invalid_target unsupported_target : Resolved
  compatible : String → Resolved
  unresolved : Option Json → Resolved

-- What `exact_target_build_action` answers.
pub record Plan : Type 0 where
  pub nvidia : String
  pub source : Source
  pub action : Json

-- `build_action` is an error where `ProfileError` is raised.
pub record Resolver : Type 0 where
  pub resolve_target : String → String → List Json → Resolved
  pub build_action : String → String → Result (Option Plan)

pub data Reason : Type 0 where
  source_intent_invalid resolver_failed requested_publication_unavailable : Reason
  automatic_no_authorized_action reviewed_build_plan_unavailable : Reason
  reviewed_project_source_mismatch unsupported_development_source : Reason
  explicit_development_acknowledgement_required : Reason

-- The actions that may be authorized; a published artifact is the one that was resolved.
pub data Action : Type 0 where
  use_published_artifact : String → Action
  next_action : Json → Action
  build_exact_target : Plan → Action
  build_project_source : Plan → Action
  build_upstream_development : String → Source → Action

pub data Decision : Type 0 where
  rejected : Reason → Decision
  authorized : Action → Decision

-- `isinstance(item, dict) and item.get("tag_name") == requested_tag`
abbrev pub has_tag : String → Json → Bool
has_tag tag (obj fields) = elim (get "tag_name" fields) [
  | none ↦ false
  | some (str s) ↦ str_eq s tag
  | some value ↦ false
]
has_tag tag value = false

abbrev pub tagged : String → List Json → List Json
tagged tag [] = []
tagged tag (item ∷ releases) =
    let rest = tagged tag releases in if has_tag tag item then item ∷ rest else rest

-- `automatic`, with what was resolved.
unfoldable pub decide_automatic : Resolved → Decision
decide_automatic (compatible tag) = authorized (use_published_artifact tag)
decide_automatic (unresolved (some action)) = authorized (next_action action)
decide_automatic (unresolved none) = rejected automatic_no_authorized_action
decide_automatic failed = rejected resolver_failed

unfoldable pub decide_tagged : String → Resolved → Decision
decide_tagged tag (compatible found) =
    if str_eq found tag
    then authorized (use_published_artifact found)
    else rejected requested_publication_unavailable
decide_tagged tag (unresolved action) = rejected requested_publication_unavailable
decide_tagged tag failed = rejected resolver_failed

-- `exact-published-artifact`: all releases are resolved first, and then those with the tag.
unfoldable pub decide_published : String → Resolved → Resolved → Decision
decide_published tag resolver_error resolved = rejected resolver_failed
decide_published tag whole resolved = decide_tagged tag resolved

unfoldable pub decide_build : String → Result (Option Plan) → Decision
decide_build nvidia (ok (some plan)) =
    if str_eq plan.nvidia nvidia
    then authorized (build_exact_target plan)
    else rejected reviewed_build_plan_unavailable
decide_build nvidia other = rejected reviewed_build_plan_unavailable

unfoldable pub decide_project : String → Source → Result (Option Plan) → Decision
decide_project nvidia source (ok (some plan)) =
    if str_eq plan.nvidia nvidia
    then if source_eq plan.source source
      then authorized (build_project_source plan)
      else rejected reviewed_project_source_mismatch
    else rejected reviewed_build_plan_unavailable
decide_project nvidia source other = rejected reviewed_build_plan_unavailable

-- `validate_source(source, "NVIDIA/open-gpu-kernel-modules", f"refs/tags/{...}")`, of a valid source.
abbrev pub is_upstream : String → Source → Bool
is_upstream nvidia source =
    str_eq source.repository "NVIDIA/open-gpu-kernel-modules"
    && str_eq source.ref ("refs/tags/" ++ nvidia)

unfoldable pub decide_development : String → Source → Bool → Decision
decide_development nvidia source acknowledged =
    if acknowledged
    then if is_upstream nvidia source
      then authorized (build_upstream_development nvidia source)
      else rejected unsupported_development_source
    else rejected explicit_development_acknowledgement_required

module _ (resolver : Resolver) where
  unfoldable pub decide : Intent → List Json → Decision
  decide i releases = elim i.selection [
    | automatic ↦ decide_automatic (resolver.resolve_target i.steamos i.kernel releases)
    | exact_published_artifact tag ↦
        decide_published tag (resolver.resolve_target i.steamos i.kernel releases)
          (resolver.resolve_target i.steamos i.kernel (tagged tag releases))
    | exact_target_local_build nvidia ↦
        decide_build nvidia (resolver.build_action i.steamos i.kernel)
    | reviewed_project_source nvidia source ↦
        decide_project nvidia source (resolver.build_action i.steamos i.kernel)
    | upstream_development nvidia source acknowledged ↦
        decide_development nvidia source acknowledged
  ]

  abbrev pub decide_valid : Result Intent → List Json → Decision
  decide_valid (err message) releases = rejected source_intent_invalid
  decide_valid (ok i) releases = decide i releases

  unfoldable pub decision : Json → List Json → Decision
  decision intent releases = decide_valid (validate_intent intent) releases
