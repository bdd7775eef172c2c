-- ===== src/Release/Operation.antt =====
-- `operation` of lib/release_operation.py, on the plan that `validate_plan` has read and on an
-- inventory of the release whose fields have their types.
use opemos.Prelude.{
  ℕ, ◌+◌, String, Bool, true, false, not, ◌&&◌, Option, none, some, List, [], ◌∷◌, str_eq, ◌==◌,
  leb, if◌then◌else◌, length, any, all,
}
use opemos.Prelude.Results.{Result, ok, need, ◌>>◌}

abbrev pub max_assets : ℕ
max_assets = 16

pub data State : Type 0 where
  pending missing conflict present : State

pub record Asset : Type 0 where
  pub name : String
  pub sha256 : String
  pub bytes : ℕ
  pub state : State

-- The identity of the operation and the assets of the plan.
pub record Plan : Type 0 where
  pub repository : String
  pub tag : String
  pub target_commit : String
  pub assets : List Asset

pub record Remote : Type 0 where
  pub name : String
  pub sha256 : String
  pub bytes : ℕ

pub record Observed : Type 0 where
  pub repository : String
  pub tag : String
  pub target_commit : String
  pub assets : List Remote

pub data Lifecycle : Type 0 where
  planned reconciling cancelled failed succeeded : Lifecycle

pub data Decision : Type 0 where
  create call_off conflicting retry_missing already_complete : Decision

pub record Report : Type 0 where
  pub lifecycle : Lifecycle
  pub decision : Decision
  pub assets : List Asset
  pub completed : ℕ
  pub total : ℕ

-- `indexed.get(name)`
abbrev pub find : String → List Remote → Option Remote
find name [] = none
find name (r ∷ rest) = if str_eq r.name name then some r else find name rest

abbrev pub is_named : String → List Remote → Bool
is_named name items = any (λ (r : Remote). str_eq r.name name) items

-- No name is indexed twice.
abbrev pub distinct_names : List Remote → Bool
distinct_names [] = true
distinct_names (r ∷ rest) = not (is_named r.name rest) && distinct_names rest

abbrev pub is_expected : List Asset → Remote → Bool
is_expected assets r = any (λ (a : Asset). str_eq a.name r.name) assets

abbrev pub state_of : Asset → Option Remote → State
state_of a none = missing
state_of a (some r) = if str_eq r.sha256 a.sha256 && r.bytes == a.bytes then present else conflict

abbrev pub marked : State → Asset → Asset
marked state a = record a { state = state }

-- The loop over the planned assets.
abbrev pub compare_all : List Remote → List Asset → List Asset
compare_all remote [] = []
compare_all remote (a ∷ assets) =
    marked (state_of a (find a.name remote)) a ∷ compare_all remote assets

abbrev pub mark_all : State → List Asset → List Asset
mark_all state [] = []
mark_all state (a ∷ assets) = marked state a ∷ mark_all state assets

abbrev pub is_missing : Asset → Bool
is_missing a = elim a.state [ missing ↦ true | _ ↦ false ]

abbrev pub is_conflict : Asset → Bool
is_conflict a = elim a.state [ conflict ↦ true | _ ↦ false ]

abbrev pub is_present : Asset → Bool
is_present a = elim a.state [ present ↦ true | _ ↦ false ]

abbrev pub count_present : List Asset → ℕ
count_present [] = 0
count_present (a ∷ assets) = (if is_present a then 1 else 0) + count_present assets

abbrev pub report : Lifecycle → Decision → List Asset → Report
report lifecycle decision assets = record {
  lifecycle = lifecycle;
  decision = decision;
  assets = assets;
  completed = count_present assets;
  total = length assets;
}

-- The decision once every planned asset has been compared.
abbrev pub decide : List Asset → Report
decide assets =
    if any is_conflict assets
    then report failed conflicting assets
    else if any is_missing assets
    then report reconciling retry_missing assets
    else report succeeded already_complete assets

-- The branch in which the tag targets the planned commit.
unfoldable pub reconcile : Plan → List Remote → Result Report
reconcile plan remote = do
  need (leb (length remote) max_assets) "Observed release asset inventory is malformed."
  need (distinct_names remote) "Observed release asset inventory is malformed."
  ok (
      if all (is_expected plan.assets) remote
      then decide (compare_all remote plan.assets)
      else report failed conflicting plan.assets)

unfoldable pub observe : Plan → Observed → Result Report
observe plan seen = do
  need (str_eq seen.repository plan.repository && str_eq seen.tag plan.tag)
      "Observed release identity does not match the operation."
  if str_eq seen.target_commit plan.target_commit
      then reconcile plan seen.assets
      else ok (report failed conflicting (mark_all conflict plan.assets))

unfoldable pub operation : Plan → Option Observed → Bool → Result Report
operation plan seen true = ok (report cancelled call_off plan.assets)
operation plan none false = ok (report planned create plan.assets)
operation plan (some seen) false = observe plan seen
