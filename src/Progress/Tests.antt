-- ===== src/Progress/Tests.antt =====
-- A record that is half way through the hashing.
use opemos.Prelude.{◌≤◌, ◌≡◌, refl, false, some, arith}
use opemos.Prelude.Regex.{matches}
use opemos.Prelude.Results.{ok}
use opemos.Prelude.Json.{pos, Json, bool, int, str, obj, field, end}
use opemos.Progress.Records.{
  phases, index_of, Semantics, determinate, fraction, counters, current_operation, adapt,
}
use opemos.Progress.Bounds.{IsPart, IsOverall, adapt-IsBounded}
use opemos.Progress.Shares.{IsShare, adapt-IsShare, adapt-share_mono}

abbrev hashing : Json
hashing = obj (
    field "schemaVersion" (int (pos 1)) (
      field "attempt" (int (pos 3)) (
        field "phase" (str "hashing") (
          field "indeterminate" (bool false) (
            field "completed" (int (pos 10))
              (field "total" (int (pos 20)) (field "unit" (str "bytes") end)))))))

abbrev half_hashed : Semantics
half_hashed = record {
  attempt = 3;
  phase = "hashing";
  current = determinate 10 20 "bytes" 500_000;
  overall = fraction 1 78_947;
}

hashing_adapts : adapt hashing ≡ ok half_hashed
unfolding adapt current_operation counters matches
hashing_adapts = refl

adapt-IsBounded_example :
    (half_hashed.attempt ≤ 1_000_000) × IsPart half_hashed.current × IsOverall half_hashed.overall
adapt-IsBounded_example = adapt-IsBounded hashing half_hashed hashing_adapts

abbrev verifying : Json
verifying = obj (
    field "schemaVersion" (int (pos 1)) (
      field "attempt" (int (pos 3)) (
        field "phase" (str "module_verification") (
          field "indeterminate" (bool false) (
            field "completed" (int (pos 1))
              (field "total" (int (pos 4)) (field "unit" (str "items") end)))))))

abbrev partly_verified : Semantics
partly_verified = record {
  attempt = 3;
  phase = "module_verification";
  current = determinate 1 4 "items" 250_000;
  overall = fraction 13 697_368;
}

verifying_adapts : adapt verifying ≡ ok partly_verified
unfolding adapt current_operation counters matches
verifying_adapts = refl

adapt-IsShare_example :
    (index_of half_hashed.phase phases ≡ some 1) × IsShare 1 78_947 half_hashed.current
adapt-IsShare_example = adapt-IsShare hashing half_hashed 1 78_947 hashing_adapts refl

adapt-share_mono_example : 78_947 ≤ 697_368
adapt-share_mono_example =
    adapt-share_mono hashing verifying half_hashed partly_verified 1 13 78_947 697_368
      hashing_adapts verifying_adapts refl refl (omega arith)
