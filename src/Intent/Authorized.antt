-- ===== src/Intent/Authorized.antt =====
-- What an authorization by `decision` of lib/source_intent_contract.py rests on.
use Prim.Native.String.{◌++◌}
use opemos.Prelude.{
  String, ◌≡◌, refl, sym, ap, subst, Bool, true, false, ◌&&◌, inl, inr, Option, none, some, List,
  str_eq, eq_iff, Bool-cases, &&_elim, ◌∙◌, arith,
}
use opemos.Prelude.Results.{Result, ok, err}
use opemos.Prelude.Json.{Json}
use opemos.Intent.Contract.{
  Source, source_eq, Selection, automatic, exact_published_artifact, exact_target_local_build,
  reviewed_project_source, upstream_development, Intent, validate_intent,
}
use opemos.Intent.Decision.{
  Resolved, resolver_error, invalid_target, unsupported_target, compatible, unresolved, Plan,
  Resolver, Action, use_published_artifact, next_action, build_exact_target, build_project_source,
  build_upstream_development, authorized, tagged, decide_tagged, decide_valid, decide_automatic,
  decide_published, decide_build, decide_project, is_upstream, decide_development, decide, decision,
}

source_eq-eq : (a b : Source) → source_eq a b ≡ true → a ≡ b
source_eq-eq a b h =
    let (p, q, r) =
      three (str_eq a.repository b.repository) (str_eq a.ref b.ref) (str_eq a.commit b.commit) h in
    same a b ((eq_iff a.repository b.repository).0 p) ((eq_iff a.ref b.ref).0 q)
      ((eq_iff a.commit b.commit).0 r)
  where
    three : (p q r : Bool) → (p && q && r) ≡ true → (p ≡ true) × (q ≡ true) × (r ≡ true)
    three p q r h = ground (arith, h)

    same :
        (a b : Source) → a.repository ≡ b.repository → a.ref ≡ b.ref → a.commit ≡ b.commit → a ≡ b
    same a b p q r = cc (p, q, r)

authorized-injective : {a b : Action} → authorized a ≡ authorized b → a ≡ b
authorized-injective h = cc h

module _ (resolver : Resolver) (i : Intent) (releases : List Json) where
  -- Why an action is authorized, by the mode of the intent.
  pub data IsJustified : Selection → Action → Type 0 where
    published_automatically :
        (tag : String)
        → resolver.resolve_target i.steamos i.kernel releases ≡ compatible tag
        → IsJustified automatic (use_published_artifact tag)
    next_automatically :
        (action : Json)
        → resolver.resolve_target i.steamos i.kernel releases ≡ unresolved (some action)
        → IsJustified automatic (next_action action)
    published_exactly :
        (tag : String)
        → resolver.resolve_target i.steamos i.kernel (tagged tag releases) ≡ compatible tag
        → IsJustified (exact_published_artifact tag) (use_published_artifact tag)
    planned :
        (plan : Plan)
        → resolver.build_action i.steamos i.kernel ≡ ok (some plan)
        → IsJustified (exact_target_local_build plan.nvidia) (build_exact_target plan)
    reviewed :
        (plan : Plan)
        → resolver.build_action i.steamos i.kernel ≡ ok (some plan)
        → IsJustified (reviewed_project_source plan.nvidia plan.source) (build_project_source plan)
    acknowledged :
        (nvidia : String) (source : Source)
        → source.repository ≡ "NVIDIA/open-gpu-kernel-modules"
        → source.ref ≡ "refs/tags/" ++ nvidia
        → IsJustified
            (upstream_development nvidia source true)
            (build_upstream_development nvidia source)

  justify_automatic :
      (resolved : Resolved) (action : Action)
      → resolver.resolve_target i.steamos i.kernel releases ≡ resolved
      → decide_automatic resolved ≡ authorized action
      → IsJustified automatic action
  unfolding decide_automatic
  justify_automatic (compatible tag) action e h =
      subst (IsJustified automatic) (authorized-injective h) (published_automatically tag e)
  justify_automatic (unresolved (some next)) action e h =
      subst (IsJustified automatic) (authorized-injective h) (next_automatically next e)
  justify_automatic (unresolved none) action e h = cc h
  justify_automatic resolver_error action e h = cc h
  justify_automatic invalid_target action e h = cc h
  justify_automatic unsupported_target action e h = cc h

  justify_tagged :
      (tag : String) (resolved : Resolved) (action : Action)
      → resolver.resolve_target i.steamos i.kernel (tagged tag releases) ≡ resolved
      → decide_tagged tag resolved ≡ authorized action
      → IsJustified (exact_published_artifact tag) action
  unfolding decide_tagged
  justify_tagged tag (compatible found) action e h = elim (Bool-cases (str_eq found tag)) [
    | inl f ↦
        let same = (eq_iff found tag).0 f in
        subst (IsJustified (exact_published_artifact tag))
          (ap use_published_artifact (sym same) ∙ authorized-injective (rw f at h))
          (published_exactly tag (e ∙ ap compatible same))
    | inr f ↦ cc (rw f at h)
  ]
  justify_tagged tag (unresolved next) action e h = cc h
  justify_tagged tag resolver_error action e h = cc h
  justify_tagged tag invalid_target action e h = cc h
  justify_tagged tag unsupported_target action e h = cc h

  decide_published-tagged :
      (tag : String) (whole resolved : Resolved) (action : Action)
      → decide_published tag whole resolved ≡ authorized action
      → decide_tagged tag resolved ≡ authorized action
  unfolding decide_published
  decide_published-tagged tag resolver_error resolved action h = cc h
  decide_published-tagged tag invalid_target resolved action h = h
  decide_published-tagged tag unsupported_target resolved action h = h
  decide_published-tagged tag (compatible found) resolved action h = h
  decide_published-tagged tag (unresolved next) resolved action h = h

  justify_build :
      (nvidia : String) (found : Result (Option Plan)) (action : Action)
      → resolver.build_action i.steamos i.kernel ≡ found
      → decide_build nvidia found ≡ authorized action
      → IsJustified (exact_target_local_build nvidia) action
  unfolding decide_build
  justify_build nvidia (ok (some plan)) action e h = elim (Bool-cases (str_eq plan.nvidia nvidia)) [
    | inl f ↦
        subst (λ n. IsJustified (exact_target_local_build n) action)
          ((eq_iff plan.nvidia nvidia).0 f)
          (subst (IsJustified (exact_target_local_build plan.nvidia))
            (authorized-injective (rw f at h)) (planned plan e))
    | inr f ↦ cc (rw f at h)
  ]
  justify_build nvidia (ok none) action e h = cc h
  justify_build nvidia (err message) action e h = cc h

  justify_project :
      (nvidia : String) (source : Source) (found : Result (Option Plan)) (action : Action)
      → resolver.build_action i.steamos i.kernel ≡ found
      → decide_project nvidia source found ≡ authorized action
      → IsJustified (reviewed_project_source nvidia source) action
  unfolding decide_project
  justify_project nvidia source (ok (some plan)) action e h =
      elim (Bool-cases (str_eq plan.nvidia nvidia)) [
        | inl f ↦ elim (Bool-cases (source_eq plan.source source)) [
          | inl g ↦
              subst (λ n. IsJustified (reviewed_project_source n source) action)
                ((eq_iff plan.nvidia nvidia).0 f)
                (subst (λ t. IsJustified (reviewed_project_source plan.nvidia t) action)
                  (source_eq-eq plan.source source g)
                  (subst (IsJustified (reviewed_project_source plan.nvidia plan.source))
                    (authorized-injective (rw (f, g) at h)) (reviewed plan e)))
          | inr g ↦ cc (rw (f, g) at h)
        ]
        | inr f ↦ cc (rw f at h)
      ]
  justify_project nvidia source (ok none) action e h = cc h
  justify_project nvidia source (err message) action e h = cc h

  justify_development :
      (nvidia : String) (source : Source) (flag : Bool) (action : Action)
      → decide_development nvidia source flag ≡ authorized action
      → IsJustified (upstream_development nvidia source flag) action
  unfolding decide_development
  justify_development nvidia source false action h = cc h
  justify_development nvidia source true action h = elim (Bool-cases (is_upstream nvidia source)) [
    | inl f ↦
        let (place, ref) =
          &&_elim (str_eq source.repository "NVIDIA/open-gpu-kernel-modules")
            (str_eq source.ref ("refs/tags/" ++ nvidia)) f in
        subst (IsJustified (upstream_development nvidia source true))
          (authorized-injective (rw f at h))
          (acknowledged nvidia source
            ((eq_iff source.repository "NVIDIA/open-gpu-kernel-modules").0 place)
            ((eq_iff source.ref ("refs/tags/" ++ nvidia)).0 ref))
    | inr f ↦ cc (rw f at h)
  ]

  decide-IsJustified :
      (selection : Selection) (action : Action)
      → decide resolver (record i { selection = selection }) releases ≡ authorized action
      → IsJustified selection action
  unfolding decide
  decide-IsJustified automatic action h = justify_automatic _ action refl h
  decide-IsJustified (exact_published_artifact tag) action h =
      justify_tagged tag _ action refl (decide_published-tagged tag _ _ action h)
  decide-IsJustified (exact_target_local_build nvidia) action h =
      justify_build nvidia _ action refl h
  decide-IsJustified (reviewed_project_source nvidia source) action h =
      justify_project nvidia source _ action refl h
  decide-IsJustified (upstream_development nvidia source flag) action h =
      justify_development nvidia source flag action h

-- Whatever `decision` authorizes, the intent is valid and the action is the one that its mode asks
-- for: a publication that the resolver finds for the target, of the requested tag where one is
-- requested; for an automatic intent also the resolver's next action; the plan of the target, with the
-- requested version and, for a project source, exactly the requested source; or, once it is
-- acknowledged, the development source in NVIDIA's repository at the tag of the version.
pub decision-IsJustified :
    (resolver : Resolver) (value : Json) (releases : List Json) (action : Action)
    → decision resolver value releases ≡ authorized action
    → (i : Intent) × (validate_intent value ≡ ok i)
      × IsJustified resolver i releases i.selection action
unfolding decision
decision-IsJustified resolver value releases action h = by_cases (validate_intent value) refl h
  where
    by_cases :
        (read : Result Intent)
        → validate_intent value ≡ read
        → decide_valid resolver read releases ≡ authorized action
        → (i : Intent) × (validate_intent value ≡ ok i)
          × IsJustified resolver i releases i.selection action
    by_cases (ok i) e g = (i, e, decide-IsJustified resolver i releases i.selection action g)
    by_cases (err message) e g = cc g
