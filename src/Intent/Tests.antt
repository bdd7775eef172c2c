-- ===== src/Intent/Tests.antt =====
-- An acknowledged development source, and a resolver that finds nothing.
use opemos.Prelude.{◌≡◌, refl, true, none, []}
use opemos.Prelude.Regex.{matches}
use opemos.Prelude.Results.{ok}
use opemos.Prelude.Json.{Json, bool, int, pos, str, obj, field, end}
use opemos.Generation.Fields.{text_is, match_at}
use opemos.Intent.Contract.{
  Source, Intent, validate_source, validate_target, development_selection, selection_of,
  validate_intent,
}
use opemos.Intent.Decision.{
  Resolver, unresolved, Action, build_upstream_development, authorized, decide_development, decide,
  decision,
}
use opemos.Intent.Authorized.{IsJustified, decision-IsJustified}

abbrev resolver : Resolver
resolver = record {
  resolve_target = λ steamos kernel releases. unresolved none;
  build_action = λ steamos kernel. ok none;
}

abbrev source : Source
source = record {
  repository = "NVIDIA/open-gpu-kernel-modules";
  ref = "refs/tags/580.105.08";
  commit = "0123456789abcdef0123456789abcdef01234567";
}

abbrev value : Json
value = obj (
    field "schemaVersion" (int (pos 1)) (
      field "kind" (str "opemos-source-intent") (
        field "mode" (str "upstream-development") (
          field "target"
            (obj (
              field "steamosVersion" (str "3.7.17") (
                field "kernelVersion" (str "6.11.11-valve24-1-neptune-611")
                  (field "architecture" (str "x86_64") end))))
            (field "selection"
              (obj (
                field "nvidiaVersion" (str "580.105.08") (
                  field "developmentAcknowledged" (bool true) (
                    field "source"
                      (obj (
                        field "repository" (str source.repository)
                          (field "ref" (str source.ref) (field "commit" (str source.commit) end))))
                      end))))
              end)))))

abbrev action : Action
action = build_upstream_development "580.105.08" source

runs : decision resolver value [] ≡ authorized action
unfolding decision decide decide_development validate_intent validate_target selection_of
    development_selection validate_source text_is match_at matches
runs = refl

decision-IsJustified_example :
    (i : Intent) × (validate_intent value ≡ ok i) × IsJustified resolver i [] i.selection action
decision-IsJustified_example = decision-IsJustified resolver value [] action runs
