-- ===== src/Core/Graph/Scanning.antt =====
-- The scan of the dependencies passes exactly the well-formed ones, and collects their blockers.
use mathlib.Core.List.{append-nil, append_assoc}
use dark_kitchen_orchestrato.Prelude.{
  String, ◌≡◌, ◌≢◌, refl, ap, ◌∙◌, Bool, true, false, ◌&&◌, List, [], ◌∷◌, ◌++◌, Result, ok, err,
  ◌>>=◌, >>=-eq-ok, arith, ◌==◌, eq_iff, All, if◌then◌else◌,
}
use dark_kitchen_orchestrato.Prelude.Sets
use dark_kitchen_orchestrato.Prelude.Sets.{has-add, Uniq, Fresh, Fresh-add}
use dark_kitchen_orchestrato.Prelude.Maps.{get-put}
use dark_kitchen_orchestrato.Core.Ids.{
  DomainError, unknown_task, self_dependency, duplicate_dependency_ids, duplicate_dependencies,
}
use dark_kitchen_orchestrato.Core.Domain.{TaskDependency, is_blocks}
use dark_kitchen_orchestrato.Core.Graph.{Scan, scan, scan_one, dependency_key, edges_of, add_edge}

-- What a task waits for, read off the dependencies.
abbrev pub blockers : List TaskDependency → String → List String
blockers [] t = []
blockers (d ∷ ds) t =
    if is_blocks d.kind && (d.task_id == t)
    then d.depends_on_task_id ∷ blockers ds t
    else blockers ds t

abbrev pub IsKnown : List String → TaskDependency → Type 0
IsKnown task_ids d =
    (Sets.has d.task_id task_ids ≡ true) × (Sets.has d.depends_on_task_id task_ids ≡ true)

abbrev pub IsProper : TaskDependency → Type 0
IsProper d = d.task_id ≢ d.depends_on_task_id

abbrev pub ids : List TaskDependency → List String
ids [] = []
ids (d ∷ ds) = d.id ∷ ids ds

abbrev pub dependency_keys : List TaskDependency → List String
dependency_keys [] = []
dependency_keys (d ∷ ds) = dependency_key d ∷ dependency_keys ds

pub record Fits (task_ids : List String) (s : Scan) (ds : List TaskDependency) : Type 0 where
  pub known : All (IsKnown task_ids) ds
  pub proper : All IsProper ds
  pub unique_ids : Uniq (ids ds)
  pub fresh_ids : Fresh s.dependency_ids (ids ds)
  pub unique_keys : Uniq (dependency_keys ds)
  pub fresh_keys : Fresh s.dependency_keys (dependency_keys ds)

-- The variables after a round that passes.
abbrev next : TaskDependency → Scan → Scan
next d s = record {
  dependency_keys = Sets.add (dependency_key d) s.dependency_keys;
  dependency_ids = Sets.add d.id s.dependency_ids;
  blocking_edges = add_edge d s.blocking_edges;
}

record Passes (task_ids : List String) (d : TaskDependency) (s : Scan) : Type 0 where
  known : IsKnown task_ids d
  proper : IsProper d
  fresh_id : Sets.has d.id s.dependency_ids ≡ false
  fresh_key : Sets.has (dependency_key d) s.dependency_keys ≡ false

module _ (task_ids : List String) (d : TaskDependency) (s : Scan) where
  Passes-scan_one : {s' : Scan} → scan_one task_ids d s ≡ ok s' → Passes task_ids d s
  unfolding scan_one
  Passes-scan_one h = ground (arith, eq_iff d.task_id d.depends_on_task_id)

  scan_one_next : {s' : Scan} → scan_one task_ids d s ≡ ok s' → s' ≡ next d s
  unfolding scan_one
  scan_one_next h = ground arith

  scan_one-Passes : Passes task_ids d s → scan_one task_ids d s ≡ ok (next d s)
  unfolding scan_one
  scan_one-Passes p = ground (arith, eq_iff d.task_id d.depends_on_task_id)

append_if :
    (b : Bool) (xs ys : List String) (x : String)
    → (if b then xs ++ x ∷ [] else xs) ++ ys ≡ xs ++ (if b then x ∷ ys else ys)
append_if true xs ys x = append_assoc xs (x ∷ []) ys
append_if false xs ys x = refl

module _ (task_ids : List String) where
  pub Fits-scan :
      (ds : List TaskDependency) (s : Scan) {s' : Scan}
      → scan task_ids ds s ≡ ok s'
      → Fits task_ids s ds
  unfolding scan
  Fits-scan [] s h = record {
    known = tt;
    proper = tt;
    unique_ids = tt;
    fresh_ids = tt;
    unique_keys = tt;
    fresh_keys = tt;
  }
  Fits-scan (d ∷ ds) s h =
      let (s₁, first, rest) = >>=-eq-ok (scan_one task_ids d s) (scan task_ids ds) h in
      let p = Passes-scan_one task_ids d s first in
      let e = scan_one_next task_ids d s first in
      let f = Fits-scan ds (next d s) (rw e at rest) in
      let i = (Fresh-add d.id s.dependency_ids (ids ds)).0 f.fresh_ids in
      let k =
        (Fresh-add (dependency_key d) s.dependency_keys (dependency_keys ds)).0 f.fresh_keys in
      record {
        known = (p.known, f.known);
        proper = (p.proper, f.proper);
        unique_ids = (i.0, f.unique_ids);
        fresh_ids = (p.fresh_id, i.1);
        unique_keys = (k.0, f.unique_keys);
        fresh_keys = (p.fresh_key, k.1);
      }

  Fits-head :
      (d : TaskDependency) (ds : List TaskDependency) (s : Scan)
      → Fits task_ids s (d ∷ ds)
      → Passes task_ids d s
  Fits-head d ds s f = record {
    known = f.known.0;
    proper = f.proper.0;
    fresh_id = f.fresh_ids.0;
    fresh_key = f.fresh_keys.0;
  }

  Fits-tail :
      (d : TaskDependency) (ds : List TaskDependency) (s : Scan)
      → Fits task_ids s (d ∷ ds)
      → Fits task_ids (next d s) ds
  Fits-tail d ds s f = record {
    known = f.known.1;
    proper = f.proper.1;
    unique_ids = f.unique_ids.1;
    fresh_ids = (Fresh-add d.id s.dependency_ids (ids ds)).1 (f.unique_ids.0, f.fresh_ids.1);
    unique_keys = f.unique_keys.1;
    fresh_keys =
        (Fresh-add (dependency_key d) s.dependency_keys (dependency_keys ds)).1
          (f.unique_keys.0, f.fresh_keys.1);
  }

  pub scan-Fits :
      (ds : List TaskDependency) (s : Scan)
      → Fits task_ids s ds
      → (s' : Scan) × (scan task_ids ds s ≡ ok s')
  unfolding scan
  scan-Fits [] s f = (s, refl)
  scan-Fits (d ∷ ds) s f =
      rw (scan_one-Passes task_ids d s (Fits-head d ds s f))
        (scan-Fits ds (next d s) (Fits-tail d ds s f))

  edges_of-add_edge :
      (d : TaskDependency) (m : List (String × List String)) (t : String)
      → edges_of (add_edge d m) t ≡ (
          if is_blocks d.kind && (d.task_id == t)
          then edges_of m t ++ d.depends_on_task_id ∷ []
          else edges_of m t)
  unfolding edges_of add_edge
  edges_of-add_edge d m t = ground (
    arith,
    eq_iff d.task_id t,
    get-put d.task_id t (edges_of m d.task_id ++ d.depends_on_task_id ∷ []) m,
  )

  -- What the scan collects for a task is what the dependencies say, in their order.
  pub edges_of-scan :
      (ds : List TaskDependency) (s : Scan) (t : String) {s' : Scan}
      → scan task_ids ds s ≡ ok s'
      → edges_of s'.blocking_edges t ≡ edges_of s.blocking_edges t ++ blockers ds t
  unfolding scan
  edges_of-scan [] s t h = rw append-nil (cc)
  edges_of-scan (d ∷ ds) s t h =
      let (s₁, first, rest) = >>=-eq-ok (scan_one task_ids d s) (scan task_ids ds) h in
      let e = scan_one_next task_ids d s first in
      let ih = edges_of-scan ds (next d s) t (rw e at rest) in
      ih
      ∙ ap (λ (l : List String). l ++ blockers ds t) (edges_of-add_edge d s.blocking_edges t)
      ∙ append_if (is_blocks d.kind && (d.task_id == t)) (edges_of s.blocking_edges t)
          (blockers ds t) d.depends_on_task_id

-- The errors of the scan are its own.
abbrev pub is_scan_error : DomainError → Bool
is_scan_error unknown_task = true
is_scan_error self_dependency = true
is_scan_error duplicate_dependency_ids = true
is_scan_error duplicate_dependencies = true
is_scan_error _ = false

scan_one_error :
    (task_ids : List String) (d : TaskDependency) (s : Scan) (e : DomainError)
    → scan_one task_ids d s ≡ err e
    → is_scan_error e ≡ true
unfolding scan_one
scan_one_error task_ids d s e h = ground arith

pub scan_error :
    (task_ids : List String) (ds : List TaskDependency) (s : Scan) (e : DomainError)
    → scan task_ids ds s ≡ err e
    → is_scan_error e ≡ true
unfolding scan
scan_error task_ids [] s e h = cc
scan_error task_ids (d ∷ ds) s e h =
    go (scan_one task_ids d s) refl h (λ s'. scan_error task_ids ds s' e)
  where
    go :
        (r : Result DomainError Scan)
        → scan_one task_ids d s ≡ r
        → (r >>= scan task_ids ds) ≡ err e
        → ((s' : Scan) → scan task_ids ds s' ≡ err e → is_scan_error e ≡ true)
        → is_scan_error e ≡ true
    go (ok s') q k ih = ih s' k
    go (err x) q k ih = scan_one_error task_ids d s e (q ∙ k)
