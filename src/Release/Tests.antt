-- ===== src/Release/Tests.antt =====
-- A release of two assets, found whole and found with one of them.
use opemos.Prelude.{◌≡◌, ◌<◌, refl, false, ◌⊎◌, inl, inr, some, [], ◌∷◌, All, length}
use opemos.Prelude.Results.{ok}
use opemos.Release.Operation.{
  pending, missing, present, Asset, Plan, Remote, Observed, reconciling, succeeded, retry_missing,
  already_complete, Report, report, marked, operation, observe, reconcile,
}
use opemos.Release.Comparison.{IsThere, IsAbsent, IsOurs}
use opemos.Release.Decisions.{operation_complete, operation-retry, operation_complete_of}

abbrev archive : Asset
archive = record { name = "driver.tar.zst"; sha256 = "aa"; bytes = 900; state = pending }

abbrev checksums : Asset
checksums = record { name = "SHA256SUMS"; sha256 = "bb"; bytes = 80; state = pending }

abbrev plan : Plan
plan = record {
  repository = "owner/opemos";
  tag = "steamos-3.8.14";
  target_commit = "0123456789abcdef0123456789abcdef01234567";
  assets = archive ∷ checksums ∷ [];
}

abbrev remote_archive : Remote
remote_archive = record { name = "driver.tar.zst"; sha256 = "aa"; bytes = 900 }

abbrev remote_checksums : Remote
remote_checksums = record { name = "SHA256SUMS"; sha256 = "bb"; bytes = 80 }

abbrev half : Observed
half = record {
  repository = "owner/opemos";
  tag = "steamos-3.8.14";
  target_commit = "0123456789abcdef0123456789abcdef01234567";
  assets = remote_archive ∷ [];
}

abbrev whole : Observed
whole = record half { assets = remote_checksums ∷ remote_archive ∷ [] }

abbrev half_report : Report
half_report =
    report reconciling retry_missing (marked present archive ∷ marked missing checksums ∷ [])

abbrev whole_report : Report
whole_report =
    report succeeded already_complete (marked present archive ∷ marked present checksums ∷ [])

half_runs : operation plan (some half) false ≡ ok half_report
unfolding operation observe reconcile
half_runs = refl

whole_runs : operation plan (some whole) false ≡ ok whole_report
unfolding operation observe reconcile
whole_runs = refl

whole-IsOurs : IsOurs plan whole
whole-IsOurs = record { repository = refl; tag = refl; target_commit = refl; expected = refl }

operation_complete_example :
    (false ≡ false) × IsOurs plan whole × All (IsThere whole.assets) plan.assets
operation_complete_example = operation_complete plan whole whole_report false whole_runs refl

operation-retry_example :
    IsOurs plan half
    × All (λ a. IsThere half.assets a ⊎ IsAbsent half.assets a) plan.assets
    × (half_report.completed < half_report.total)
operation-retry_example = operation-retry plan half half_report false half_runs refl

operation_complete_of_example :
    (r : Report) × (operation plan (some whole) false ≡ ok r)
    × (r.decision ≡ already_complete)
    × (r.completed ≡ length plan.assets)
operation_complete_of_example = operation_complete_of plan whole whole-IsOurs refl refl (
  record {
    item = remote_archive;
    listed = inr (inl refl);
    name = refl;
    sha256 = refl;
    bytes = refl;
  },
  (
    record { item = remote_checksums; listed = inl refl; name = refl; sha256 = refl; bytes = refl },
    tt,
  ),
)
