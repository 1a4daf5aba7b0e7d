-- ===== src/Runtime/Scheduler/Offers.antt =====
-- Which tasks a tick offers to the launcher, and which of them it launches.
use mathlib.Core.List.{append-nil, append_assoc}
use dark_kitchen_orchestrato.Prelude.{
  ℕ, zero, suc, String, ◌≡◌, refl, ◌∙◌, Bool, true, ◌&&◌, ◌||◌, List, [], ◌∷◌, ◌++◌, ok, arith,
  ◌==◌, eq_iff, take, filter, any, all, All, Bool-cases, inl, inr,
}
use dark_kitchen_orchestrato.Prelude.Sets
use dark_kitchen_orchestrato.Prelude.Sets.{has-add, Uniq, has_of_All, All-of_has}
use dark_kitchen_orchestrato.Core.Domain.{Task, is_ready, is_backlog}
use dark_kitchen_orchestrato.Runtime.Scheduler.{
  Supervisor, perform_all, Environment, promote_each, launch_each, task_ids, make_ready,
}
use dark_kitchen_orchestrato.Runtime.Scheduler.Launching.{
  started, Round, skipped, rejected, launched_as, Round-of,
}
use dark_kitchen_orchestrato.Runtime.Scheduler.Readiness.{is_done}

-- Some task of this id is ready or waits in the backlog.
abbrev pub is_offered : List Task → String → Bool
is_offered tasks t = any (λ u. (u.id == t) && (is_ready u.status || is_backlog u.status)) tasks

-- `l` goes on from `before` with different members of `ts`.
abbrev pub Extends : List String → List String → List String → Type 0
Extends ts before l =
    (rest : List String) × (l ≡ before ++ rest)
    × Uniq rest
    × ((b : String) → Sets.has b rest ≡ true → Sets.has b ts ≡ true)

pub launch_each-Extends :
    (env : Environment) (ts before : List String) (s : Supervisor) {l : List String}
    → Uniq ts
    → (launch_each env ts before s).1 ≡ ok l
    → Extends ts before l
unfolding launch_each Sets.has
launch_each-Extends env [] before s u h = ([], rw append-nil (cc), tt, λ b k. absurd (cc))
launch_each-Extends env (t ∷ ts) before s {l} u h =
    go (Round-of env t ts before s) (launch_each-Extends env ts before s u.1)
      (λ r. launch_each-Extends env ts (before ++ t ∷ []) (started env t r s) u.1)
  where
    go :
        Round env t ts before s
        → ((launch_each env ts before s).1 ≡ ok l → Extends ts before l)
        → ((r : String)
            → (launch_each env ts (before ++ t ∷ []) (started env t r s)).1 ≡ ok l
            → Extends ts (before ++ t ∷ []) l)
        → Extends (t ∷ ts) before l
    go (skipped a e) f g =
        let (rest, q, v, k) = f (rw e at h) in (rest, q, v, λ b m. ground (arith, k b m))
    go (rejected e n) f g = absurd (cc (rw e at h))
    go (launched_as r n x e) f g =
        let (rest, q, v, k) = g r (rw e at h) in
        (
          t ∷ rest,
          q ∙ append_assoc before (t ∷ []) rest,
          (ground (arith, k t, u.0), v),
          λ b m. ground (arith, k b),
        )

pub All-task_ids :
    (P : String → Type 0) (ts : List Task) → All (λ t. P t.id) ts → All P (task_ids ts)
All-task_ids P [] h = tt
All-task_ids P (t ∷ ts) h = (h.0, All-task_ids P ts h.1)

pub has-promote_each :
    (env : Environment) (ts promoted : List String) (s : Supervisor) (b : String)
    → Sets.has b (promote_each env ts promoted s).1 ≡ true
    → (Sets.has b promoted || Sets.has b ts) ≡ true
unfolding promote_each Sets.has
has-promote_each env [] promoted s b h = ground arith
has-promote_each env (t ∷ ts) promoted s b h = elim (Bool-cases (env.promote t).1) [
  | inl e ↦ ground (
    arith,
    has-promote_each env ts (Sets.add t promoted) (perform_all (env.promote t).0 s) b,
    has-add b t promoted,
  )
  | inr e ↦ ground (arith, has-promote_each env ts promoted (perform_all (env.promote t).0 s) b)
]

-- A promotion completes no task.
pub is_done-make_ready :
    (promoted : List String) (tasks : List Task) (b : String)
    → is_done (make_ready promoted tasks) b ≡ true
    → is_done tasks b ≡ true
is_done-make_ready promoted [] b h = cc
is_done-make_ready promoted (t ∷ ts) b h = ground (arith, is_done-make_ready promoted ts b)

pub all_mono :
    (p q : String → Bool) (xs : List String)
    → ((x : String) → p x ≡ true → q x ≡ true)
    → all p xs ≡ true
    → all q xs ≡ true
all_mono p q [] f h = refl
all_mono p q (x ∷ xs) f h = ground (arith, f x, all_mono p q xs f)

pub offered_of_backlog :
    (p : Task → Bool) (tasks : List Task) (t : String)
    → ((u : Task) → p u ≡ true → is_backlog u.status ≡ true)
    → Sets.has t (task_ids (filter p tasks)) ≡ true
    → is_offered tasks t ≡ true
unfolding Sets.has
offered_of_backlog p [] t f h = cc
offered_of_backlog p (u ∷ us) t f h = ground (arith, f u, offered_of_backlog p us t f)

-- A task that reads as ready after the promotions was ready, or was promoted.
pub offered-make_ready :
    (promoted : List String) (all_tasks tasks : List Task)
    → ((b : String) → Sets.has b promoted ≡ true → is_offered all_tasks b ≡ true)
    → ((b : String) → is_offered tasks b ≡ true → is_offered all_tasks b ≡ true)
    → All
        (λ u. is_ready u.status ≡ true → is_offered all_tasks u.id ≡ true)
        (make_ready promoted tasks)
offered-make_ready promoted all_tasks [] f g = tt
offered-make_ready promoted all_tasks (t ∷ ts) f g = (
  elim (Bool-cases (Sets.has t.id promoted)) [
    | inl e ↦ rw e (λ h. f t.id e)
    | inr e ↦ rw e (λ h. g t.id (ground (arith, eq_iff t.id t.id)))
  ],
  offered-make_ready promoted all_tasks ts f (λ b h. g b (ground arith)),
)

pub offered-plain :
    (all_tasks tasks : List Task)
    → ((b : String) → is_offered tasks b ≡ true → is_offered all_tasks b ≡ true)
    → All (λ u. is_ready u.status ≡ true → is_offered all_tasks u.id ≡ true) tasks
offered-plain all_tasks [] g = tt
offered-plain all_tasks (t ∷ ts) g = (
  λ h. g t.id (ground (arith, eq_iff t.id t.id)),
  offered-plain all_tasks ts (λ b h. g b (ground arith)),
)

pub has-filter :
    (p : Task → Bool) (ts : List Task) (b : String)
    → Sets.has b (task_ids (filter p ts)) ≡ true
    → Sets.has b (task_ids ts) ≡ true
unfolding Sets.has
has-filter p [] b h = h
has-filter p (t ∷ ts) b h = ground (arith, has-filter p ts b)

pub Uniq-filter :
    (p : Task → Bool) (ts : List Task) → Uniq (task_ids ts) → Uniq (task_ids (filter p ts))
Uniq-filter p [] u = tt
Uniq-filter p (t ∷ ts) u = elim (Bool-cases (p t)) [
  | inl e ↦ rw e (ground (arith, has-filter p ts t.id, u.0), Uniq-filter p ts u.1)
  | inr e ↦ rw e (Uniq-filter p ts u.1)
]

pub has-take :
    (n : ℕ) (ts : List Task) (b : String)
    → Sets.has b (task_ids (take n ts)) ≡ true
    → Sets.has b (task_ids ts) ≡ true
unfolding Sets.has
has-take zero ts b h = cc
has-take (suc n) [] b h = h
has-take (suc n) (t ∷ ts) b h = ground (arith, has-take n ts b)

pub Uniq-take : (n : ℕ) (ts : List Task) → Uniq (task_ids ts) → Uniq (task_ids (take n ts))
Uniq-take zero ts u = tt
Uniq-take (suc n) [] u = tt
Uniq-take (suc n) (t ∷ ts) u = (ground (arith, has-take n ts t.id, u.0), Uniq-take n ts u.1)
