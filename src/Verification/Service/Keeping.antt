-- ===== src/Verification/Service/Keeping.antt =====
-- What holds of the runs that the service keeps, and of the run that an answer stores.
use dark_kitchen_orchestrato.Prelude.{
  String, ◌≡◌, inl, inr, refl, Bool, some, List, [], ◌∷◌, Result, ok, err, ◌==◌, all, subst, arith,
  Bool-cases,
}
use dark_kitchen_orchestrato.Prelude.Maps
use dark_kitchen_orchestrato.Verification.Runs.{
  VerificationCriterionResult, VerificationRun, is_pass,
}
use dark_kitchen_orchestrato.Verification.Service.{
  ServiceError, Answer, kept, stored, Runs, settle, require_run,
}

-- What holds of each run that is kept.
abbrev pub Keeps : (VerificationRun → Type 0) → Runs → Type 0
Keeps P [] = Unit
Keeps P ((k, r) ∷ s) = P r × Keeps P s

pub Keeps-put :
    (P : VerificationRun → Type 0) (k : String) (r : VerificationRun) (s : Runs)
    → P r
    → Keeps P s
    → Keeps P (Maps.put k r s)
unfolding Maps.put
Keeps-put P k r [] p h = (p, tt)
Keeps-put P k r ((j, x) ∷ s) p h = elim (Bool-cases (j == k)) [
  | inl e ↦ rw e (p, h.1)
  | inr e ↦ rw e (h.0, Keeps-put P k r s p h.1)
]

pub Keeps-get :
    (P : VerificationRun → Type 0) (k : String) (r : VerificationRun) (s : Runs)
    → Keeps P s
    → Maps.get k s ≡ some r
    → P r
unfolding Maps.get
Keeps-get P k r [] h e = absurd (cc)
Keeps-get P k r ((j, x) ∷ s) h e = elim (Bool-cases (j == k)) [
  | inl q ↦ subst P (some_injective (rw q at e)) h.0
  | inr q ↦ Keeps-get P k r s h.1 (rw q at e)
]
  where
    some_injective : {x y : VerificationRun} → some x ≡ some y → x ≡ y
    some_injective e = cc

-- What holds of the run that an answer stores.
abbrev pub Stores : (VerificationRun → Type 0) → Answer → Type 0
Stores P (kept r) = Unit
Stores P (stored k r) = P r

pub settle-Keeps :
    (P : VerificationRun → Type 0) (s : Runs) (x : Result ServiceError Answer)
    → Keeps P s
    → ((a : Answer) → x ≡ ok a → Stores P a)
    → Keeps P (settle s x).0
unfolding settle
settle-Keeps P s (ok (kept r)) h w = h
settle-Keeps P s (ok (stored k r)) h w = Keeps-put P k r s (w (stored k r) refl) h
settle-Keeps P s (err e) h w = h

pub ok_injective : {a b : Answer} → ◌≡◌ {A = Result ServiceError Answer} (ok a) (ok b) → a ≡ b
ok_injective e = cc

abbrev pub all_pass : List VerificationCriterionResult → Bool
all_pass results = all (λ c. is_pass c.status) results

pub get_of_require :
    (id : String) (s : Runs) {r : VerificationRun}
    → require_run id s ≡ ok r
    → Maps.get id s ≡ some r
get_of_require id s h = ground arith
