-- ===== src/Verification/Examples.antt =====
-- A day of the verification service.
use dark_kitchen_orchestrato.Prelude.{
  String, ◌≡◌, refl, Option, none, some, List, [], ◌∷◌, Result, ok, ◌==◌, ne_of_test, if◌then◌else◌,
}
use dark_kitchen_orchestrato.Prelude.Maps
use dark_kitchen_orchestrato.Core.Ids.{create_stable_id}
use dark_kitchen_orchestrato.Verification.Runs.{
  passed, failed, CriterionStatus, VerificationCriterionResult, VerificationRun, create_run, Order,
  before, same, after, sort_runs,
}
use dark_kitchen_orchestrato.Verification.Service.{
  ServiceError, Profile, Runs, settle, request, Call, requested, retried, started, completed, serve,
}
use dark_kitchen_orchestrato.Verification.Service.Keeping.{Keeps}
use dark_kitchen_orchestrato.Verification.Service.Soundness.{IsSound, serve-Keeps}
use dark_kitchen_orchestrato.Verification.Service.Finality.{terminal_run_kept}
use dark_kitchen_orchestrato.Verification.Service.Requests.{request_again}

abbrev web : List Profile
web = record { id = "web"; max_attempts = some 2 } ∷ []

abbrev asks : String → Option String
asks task = some "web"

abbrev locale_order : String → String → Order
locale_order a b = if a == b then same else if a == "t1" then before else after

abbrev clicked : List VerificationCriterionResult
clicked =
    record {
      criterion_name = "click";
      status = CriterionStatus.fail;
      message = none;
      evidence = [];
    }
    ∷ []

abbrev day : List Call
day =
    requested "task" none "r1" "t1"
    ∷ started "r1"
    ∷ completed "r1" failed clicked "" "t2"
    ∷ retried "r1" "r2" "t3"
    ∷ []

serve-Keeps_example : Keeps (IsSound web) (serve web asks locale_order day [])
serve-Keeps_example = serve-Keeps web asks locale_order day [] tt

abbrev failed_run : VerificationRun
failed_run = record (create_run "r1" "t1" "task" "web" 1) {
  state = failed;
  criterion_results = clicked;
  completed_at = some "t2";
}

abbrev later : List Call
later = retried "r1" "r2" "t3" ∷ completed "r1" passed [] "" "t4" ∷ []

there : Maps.get "r1" (("r1", failed_run) ∷ []) ≡ some failed_run
unfolding Maps.get
there = refl

terminal_run_kept_example :
    Maps.get "r1" (serve web asks locale_order later (("r1", failed_run) ∷ [])) ≡ some failed_run
terminal_run_kept_example =
    terminal_run_kept web asks locale_order later "r1" (("r1", failed_run) ∷ []) failed_run there
      refl (ne_of_test refl, (tt, tt))

abbrev failed_once : Runs
failed_once = ("r1", failed_run) ∷ []

abbrev asked : Runs × Result ServiceError VerificationRun
asked = settle failed_once (request web asks locale_order "task" none "r2" "t3" failed_once)

new_run : asked.1 ≡ ok (create_run "r2" "t3" "task" "web" 1)
unfolding settle request create_stable_id sort_runs
new_run = refl

is_new : Maps.get "r2" failed_once ≡ none
unfolding Maps.get
is_new = refl

request_again_example :
    settle asked.0 (request web asks locale_order "task" none "r3" "t4" asked.0)
    ≡ (asked.0, ok (create_run "r2" "t3" "task" "web" 1))
request_again_example =
    request_again locale_order web asks "task" none "r2" "t3" "r3" "t4" failed_once
      (create_run "r2" "t3" "task" "web" 1) is_new (λ t p. (refl, tt)) new_run
