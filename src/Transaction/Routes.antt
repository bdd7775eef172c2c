-- ===== src/Transaction/Routes.antt =====
-- A recovery that is carried through its phases by `set` of lib/recovery_transaction.py.
use opemos.Prelude.{
  ◌+◌, ◌≤◌, ◌≡◌, refl, subst, sym, true, false, none, some, List, [], ◌∷◌, String, str_eq, arith,
  ltb, length,
}
use opemos.Transaction.Document.{Phase, Document, to_json, max_attempts}
use opemos.Transaction.Commands.{stored, set, Arguments, transitions, phase_in, advanced}
use opemos.Transaction.Validity.{IsValid, validate-to_json}
use opemos.Transaction.Success.{IsLater, IsReason, Fits, advanced-IsValid, set_allowed}
use opemos.Transaction.Sessions.{Request, serve, serve_all}

module _ (reason now : String) where
  -- `set --phase p --reason reason`
  abbrev pub moving_to : Phase → Arguments
  moving_to p = record {
    kernel = none;
    nvidia = none;
    support_revision = none;
    phase = some p;
    reason = reason;
  }

  abbrev pub moves : List Phase → List Request
  moves [] = []
  moves (p ∷ rest) = record { operation = set; arguments = moving_to p; now = now } ∷ moves rest

  abbrev pub carried : List Phase → Document → Document
  carried [] d = d
  carried (p ∷ rest) d = carried rest (advanced p reason now d)

  -- Each phase follows the one before it in the table, and each document fits into the file.
  abbrev pub IsRoute : List Phase → Document → Type 0
  IsRoute [] d = Unit
  IsRoute (p ∷ rest) d =
      (phase_in p (transitions d.phase) ≡ true)
      × Fits (advanced p reason now d)
      × IsRoute rest (advanced p reason now d)

  carried-attempt :
      (route : List Phase) (d : Document) → (carried route d).attempt ≡ d.attempt + length route
  carried-attempt [] d = omega arith
  carried-attempt (p ∷ rest) d =
      let e = carried-attempt rest (advanced p reason now d) in omega (arith, e)

  -- A valid document that fits into the file is carried along every route of the table, with as many
  -- attempts left as the route is long, a reason that may be written and a time that is not before the
  -- creation, if each document on the way fits: no `set` fails, the file ends with the document of the
  -- last phase, and each phase has counted one attempt.
  pub serve_all-route :
      (route : List Phase) (d : Document)
      → IsValid d
      → Fits d
      → str_eq reason "" ≡ false
      → IsReason reason
      → IsLater d.created_at now
      → d.attempt + length route ≤ max_attempts
      → IsRoute route d
      → (serve_all (moves route) (stored (to_json d)) ≡ stored (to_json (carried route d)))
        × ((carried route d).attempt ≡ d.attempt + length route)
  unfolding serve_all serve
  serve_all-route [] d v fits spoken worded later room open_ = (refl, omega arith)
  serve_all-route (p ∷ rest) d v fits spoken worded later room open_ =
      let free : ltb d.attempt max_attempts ≡ true = ground (arith, room) in
      let next = advanced p reason now d in
      let one =
        set_allowed (moving_to p) p now (to_json d) d (validate-to_json d v) fits refl refl open_.0
          free spoken worded later open_.1 in
      let others =
        serve_all-route rest next (advanced-IsValid p reason now d v free worded later) open_.1
          spoken worded later (omega (arith, room)) open_.2 in
      let q : Request = record { operation = set; arguments = moving_to p; now = now } in
      let served : serve q (stored (to_json d)) ≡ stored (to_json next) = rw one refl in
      (
        subst (λ f. serve_all (moves rest) f ≡ stored (to_json (carried rest next))) (sym served)
            others.0,
        omega (arith, others.1),
      )
