-- ===== src/Workflows/Selection.antt =====
-- packages/workflows/src/selection.ts. The normal form of a text (NFKC, trimmed, in lower case) is
-- an argument.

pub mod Best
use dark_kitchen_orchestrato.Prelude.{
  ℕ, suc, String, Bool, true, false, not, ◌&&◌, ◌||◌, Option, none, some, or_else, List, [], ◌∷◌,
  map, ◌==◌, ltb, leb, nat_eq, any, all, find, filter, if◌then◌else◌,
}
use dark_kitchen_orchestrato.Prelude.Sets
use dark_kitchen_orchestrato.Core.Domain.{TaskStatus}

-- The integers over the native numbers: `negsuc n` is -(n + 1).
pub data ℤ : Type 0 where
  pos negsuc : ℕ → ℤ

-- `a < b`
abbrev pub int_ltb : ℤ → ℤ → Bool
int_ltb (pos a) (pos b) = ltb a b
int_ltb (pos a) (negsuc b) = false
int_ltb (negsuc a) (pos b) = true
int_ltb (negsuc a) (negsuc b) = ltb b a

pub record WorkflowSelectionTask : Type 0 where
  pub id : String
  pub title : String
  pub description : Option String
  pub status : Option TaskStatus
  pub labels : Option (List String)
  pub verification_profile_ids : Option (List String)

pub record WorkflowTaskSelector : Type 0 where
  pub task_ids : Option (List String)
  pub statuses : Option (List TaskStatus)
  pub labels_any : Option (List String)
  pub labels_all : Option (List String)
  pub title_includes : Option (List String)
  pub description_includes : Option (List String)
  pub verification_profiles_any : Option (List String)

-- `SelectableWorkflowConfig`
pub record WorkflowConfig : Type 0 where
  pub id : String
  pub is_default : Option Bool
  pub priority : Option ℤ
  pub task_selector : Option WorkflowTaskSelector

-- `text.includes(fragment)`
abbrev pub starts_with : String → String → Bool
starts_with s String.[] = true
starts_with String.[] (String.◌∷◌ d t) = false
starts_with (String.◌∷◌ c s) (String.◌∷◌ d t) =
    (String.◌∷◌ c String.[] == String.◌∷◌ d String.[]) && starts_with s t

abbrev pub includes : String → String → Bool
includes String.[] t = starts_with String.[] t
includes (String.◌∷◌ c s) t = starts_with (String.◌∷◌ c s) t || includes s t

pub TaskStatus-discrete : Discrete TaskStatus
TaskStatus-discrete = hlevel

abbrev pub is_status : TaskStatus → TaskStatus → Bool
is_status s t = elim (TaskStatus-discrete s t) [ yes e ↦ true | no n ↦ false ]

-- A predicate group that is not there holds.
abbrev pub holds : {A : Type 0} → Option A → (A → Bool) → Bool
holds none test = true
holds (some x) test = test x

module _ (normalize : String → String) where
  -- `matchesTaskSelector`
  unfoldable pub matches_task_selector : WorkflowTaskSelector → WorkflowSelectionTask → Bool
  matches_task_selector selector task =
      let labels = Sets.of_list (map normalize (or_else task.labels [])) in
      let profiles = Sets.of_list (map normalize (or_else task.verification_profile_ids [])) in
      let title = normalize task.title in
      let description = normalize (or_else task.description "") in
      holds selector.task_ids (λ ids. any (λ i. i == task.id) ids)
      && holds selector.statuses
          (λ ss. elim task.status [ none ↦ false | some s ↦ any (is_status s) ss ])
      && holds selector.labels_any (λ ls. any (λ l. Sets.has (normalize l) labels) ls)
      && holds selector.labels_all (λ ls. all (λ l. Sets.has (normalize l) labels) ls)
      && holds selector.title_includes (λ fs. any (λ f. includes title (normalize f)) fs)
      && holds selector.description_includes
          (λ fs. any (λ f. includes description (normalize f)) fs)
      && holds selector.verification_profiles_any
          (λ ps. any (λ p. Sets.has (normalize p) profiles) ps)

  abbrev pub applies : WorkflowSelectionTask → WorkflowConfig → Bool
  applies task w = elim w.task_selector [ none ↦ false | some s ↦ matches_task_selector s task ]

-- `workflow.priority ?? 0`
abbrev pub priority_of : WorkflowConfig → ℤ
priority_of w = or_else w.priority (pos 0)

-- `workflows.map((workflow, index) => ({ workflow, index }))`
abbrev pub indexed : ℕ → List WorkflowConfig → List (WorkflowConfig × ℕ)
indexed n [] = []
indexed n (w ∷ ws) = (w, n) ∷ indexed (suc n) ws

-- The comparison of `sort`: the first argument need not move behind the second.
abbrev pub is_not_after : WorkflowConfig × ℕ → WorkflowConfig × ℕ → Bool
is_not_after left right =
    int_ltb (priority_of right.0) (priority_of left.0)
    || (not (int_ltb (priority_of left.0) (priority_of right.0)) && leb left.1 right.1)

abbrev pub insert_match : WorkflowConfig × ℕ → List (WorkflowConfig × ℕ) → List (WorkflowConfig × ℕ)
insert_match x [] = x ∷ []
insert_match x (y ∷ ys) =
    let rest = insert_match x ys in if is_not_after x y then x ∷ y ∷ ys else y ∷ rest

unfoldable pub sort_matches : List (WorkflowConfig × ℕ) → List (WorkflowConfig × ℕ)
sort_matches [] = []
sort_matches (x ∷ xs) = insert_match x (sort_matches xs)

abbrev pub first_of : {A : Type 0} → List A → Option A
first_of [] = none
first_of (x ∷ xs) = some x

abbrev pub or_option : {A : Type 0} → Option A → Option A → Option A
or_option none y = y
or_option (some x) y = some x

abbrev pub workflow_of : Option (WorkflowConfig × ℕ) → Option WorkflowConfig
workflow_of none = none
workflow_of (some x) = some x.0

-- `selectWorkflowForTask`
unfoldable pub select_workflow_for_task :
    (String → String) → List WorkflowConfig → WorkflowSelectionTask → Option WorkflowConfig
select_workflow_for_task normalize workflows task =
    or_option
      (workflow_of
        (first_of (sort_matches (filter (λ x. applies normalize task x.0) (indexed 0 workflows)))))
      (or_option (find (λ w. or_else w.is_default false) workflows) (first_of workflows))
