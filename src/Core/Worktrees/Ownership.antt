-- ===== src/Core/Worktrees/Ownership.antt =====
-- `validatePrimaryWorktreeInvariant` accepts exactly an exclusive assignment of worktrees.
use dark_kitchen_orchestrato.Prelude.{
  String, ◌≡◌, refl, sym, ◌∙◌, ◌↔◌, inl, inr, true, false, ◌||◌, List, [], ◌∷◌, ok, guard, ◌>>=◌,
  >>=-eq-ok, arith, nat_eq, length, All, Bool-cases, if◌then◌else◌,
}
use dark_kitchen_orchestrato.Prelude.Sets
use dark_kitchen_orchestrato.Prelude.Sets.{
  Uniq, length-of_list, has-of_list, has_of_All, All-of_has,
}
use dark_kitchen_orchestrato.Prelude.Maps
use dark_kitchen_orchestrato.Prelude.Maps.{Fresh, Fresh-put, has-put}
use dark_kitchen_orchestrato.Core.Ids.{duplicate_active}
use dark_kitchen_orchestrato.Core.Domain.{Workspace}
use dark_kitchen_orchestrato.Core.Worktrees.{
  PathApi, Owners, canonicalize_workspace_path, holds_worktree, claim_one, claim_all,
  require_primaries, validate_primary_worktree_invariant,
}

-- The tasks that have a primary worktree, provisioning or active, once for each.
abbrev pub owner_tasks : List Workspace → List String
owner_tasks [] = []
owner_tasks (w ∷ ws) = if holds_worktree w then w.task_id ∷ owner_tasks ws else owner_tasks ws

module _ (api : PathApi) where
  -- Their physical locations.
  abbrev pub owner_paths : List Workspace → List String
  owner_paths [] = []
  owner_paths (w ∷ ws) =
      if holds_worktree w
      then canonicalize_workspace_path api w.path ∷ owner_paths ws
      else owner_paths ws

  pub record Exclusive (active_task_ids : List String) (ws : List Workspace) : Type 0 where
    pub unique_active : Uniq active_task_ids
    pub one_worktree : Uniq (owner_tasks ws)
    pub one_task : Uniq (owner_paths ws)
    pub owned : All (λ t. Sets.has t (owner_tasks ws) ≡ true) active_task_ids

  record Claims (s : Owners) (ws : List Workspace) : Type 0 where
    one_worktree : Uniq (owner_tasks ws)
    new_tasks : Fresh s.primary_by_task (owner_tasks ws)
    one_task : Uniq (owner_paths ws)
    new_paths : Fresh s.task_by_path (owner_paths ws)

  abbrev claimed : Workspace → Owners → Owners
  claimed w s = record {
    primary_by_task = Maps.put w.task_id w.id s.primary_by_task;
    task_by_path = Maps.put (canonicalize_workspace_path api w.path) w.task_id s.task_by_path;
  }

  module _ (w : Workspace) (s : Owners) where
    skip : holds_worktree w ≡ false → claim_one api w s ≡ ok s
    unfolding claim_one
    skip h = rw h

    claim_ok :
        {s' : Owners}
        → holds_worktree w ≡ true
        → claim_one api w s ≡ ok s'
        → (Maps.has w.task_id s.primary_by_task ≡ false)
          × (Maps.has (canonicalize_workspace_path api w.path) s.task_by_path ≡ false)
          × (s' ≡ claimed w s)
    unfolding claim_one
    claim_ok h e = ground arith

    ok_claim :
        holds_worktree w ≡ true
        → Maps.has w.task_id s.primary_by_task ≡ false
        → Maps.has (canonicalize_workspace_path api w.path) s.task_by_path ≡ false
        → claim_one api w s ≡ ok (claimed w s)
    unfolding claim_one
    ok_claim h p q = ground arith

  Claims-claim_all :
      (ws : List Workspace) (s : Owners) {s' : Owners} → claim_all api ws s ≡ ok s' → Claims s ws
  unfolding claim_all
  Claims-claim_all [] s h = record {
    one_worktree = tt;
    new_tasks = tt;
    one_task = tt;
    new_paths = tt;
  }
  Claims-claim_all (w ∷ ws) s h =
      let (s₁, first, rest) = >>=-eq-ok (claim_one api w s) (claim_all api ws) h in
      elim (Bool-cases (holds_worktree w)) [
        | inl e ↦
            let (p, q, n) = claim_ok w s e first in
            let c = Claims-claim_all ws (claimed w s) (rw n at rest) in
            let t = (Fresh-put w.task_id w.id s.primary_by_task (owner_tasks ws)).0 c.new_tasks in
            let u =
              (Fresh-put (canonicalize_workspace_path api w.path) w.task_id s.task_by_path
                  (owner_paths ws)).0
                c.new_paths in
            record {
              one_worktree = rw e (t.0, c.one_worktree);
              new_tasks = rw e (p, t.1);
              one_task = rw e (u.0, c.one_task);
              new_paths = rw e (q, u.1);
            }
        | inr e ↦
            let c = Claims-claim_all ws s (rw (skip w s e) at h) in
            record {
              one_worktree = rw e c.one_worktree;
              new_tasks = rw e c.new_tasks;
              one_task = rw e c.one_task;
              new_paths = rw e c.new_paths;
            }
      ]

  claim_all-Claims :
      (ws : List Workspace) (s : Owners)
      → Claims s ws
      → (s' : Owners) × (claim_all api ws s ≡ ok s')
  unfolding claim_all
  claim_all-Claims [] s c = (s, refl)
  claim_all-Claims (w ∷ ws) s c = elim (Bool-cases (holds_worktree w)) [
    | inl e ↦
        let a : Uniq (w.task_id ∷ owner_tasks ws) = rw e at c.one_worktree in
        let b : Fresh s.primary_by_task (w.task_id ∷ owner_tasks ws) = rw e at c.new_tasks in
        let a' : Uniq (canonicalize_workspace_path api w.path ∷ owner_paths ws) =
          rw e at c.one_task in
        let b' : Fresh s.task_by_path (canonicalize_workspace_path api w.path ∷ owner_paths ws) =
          rw e at c.new_paths in
        rw (ok_claim w s e b.0 b'.0) (
          claim_all-Claims ws (claimed w s) (record {
            one_worktree = a.1;
            new_tasks = (Fresh-put w.task_id w.id s.primary_by_task (owner_tasks ws)).1 (a.0, b.1);
            one_task = a'.1;
            new_paths =
                (Fresh-put (canonicalize_workspace_path api w.path) w.task_id s.task_by_path
                    (owner_paths ws)).1
                  (a'.0, b'.1);
          }))
    | inr e ↦ rw (skip w s e) (
        claim_all-Claims ws s (record {
          one_worktree = rw e at c.one_worktree;
          new_tasks = rw e at c.new_tasks;
          one_task = rw e at c.one_task;
          new_paths = rw e at c.new_paths;
        }))
  ]

  has-claim_all :
      (ws : List Workspace) (s : Owners) (t : String) {s' : Owners}
      → claim_all api ws s ≡ ok s'
      → Maps.has t s'.primary_by_task
        ≡ (Maps.has t s.primary_by_task || Sets.has t (owner_tasks ws))
  unfolding claim_all Sets.has
  has-claim_all [] s t h = ground arith
  has-claim_all (w ∷ ws) s t h =
      let (s₁, first, rest) = >>=-eq-ok (claim_one api w s) (claim_all api ws) h in
      elim (Bool-cases (holds_worktree w)) [
        | inl e ↦
            let (p, q, n) = claim_ok w s e first in
            let ih = has-claim_all ws (claimed w s) t (rw n at rest) in
            ground (arith, has-put w.task_id t w.id s.primary_by_task)
        | inr e ↦ let ih = has-claim_all ws s t (rw (skip w s e) at h) in ground arith
      ]

  require_primaries_iff :
      (ts : List String) (s : Owners)
      → (require_primaries api ts s ≡ ok tt) ↔ All (λ t. Maps.has t s.primary_by_task ≡ true) ts
  unfolding require_primaries
  require_primaries_iff [] s = (λ h. tt, λ h. refl)
  require_primaries_iff (t ∷ ts) s = (
    λ h. (ground arith, (require_primaries_iff ts s).0 (ground arith)),
    λ h. ground (arith, (require_primaries_iff ts s).1 h.1),
  )

  All-of_list : (P : String → Type 0) (ts : List String) → All P (Sets.of_list ts) ↔ All P ts
  All-of_list P ts = (
    λ h. All-of_has P ts (λ x k. has_of_All P (Sets.of_list ts) x h (has-of_list x ts ∙ k)),
    λ h. All-of_has P (Sets.of_list ts) (λ x k. has_of_All P ts x h (sym (has-of_list x ts) ∙ k)),
  )

  module _ (active_task_ids : List String) (ws : List Workspace) where
    abbrev no_owners : Owners
    no_owners = record { primary_by_task = []; task_by_path = [] }

    owned_iff :
        {s : Owners}
        → claim_all api ws no_owners ≡ ok s
        → All (λ t. Maps.has t s.primary_by_task ≡ true) active_task_ids
          ↔ All (λ t. Sets.has t (owner_tasks ws) ≡ true) active_task_ids
    unfolding Maps.get
    owned_iff {s} h = (
      λ a.
          All-of_has (λ t. Sets.has t (owner_tasks ws) ≡ true) active_task_ids
            λ t k.
              sym (has-claim_all ws no_owners t h)
              ∙ has_of_All (λ t. Maps.has t s.primary_by_task ≡ true) active_task_ids t a k,
      λ a.
          All-of_has (λ t. Maps.has t s.primary_by_task ≡ true) active_task_ids
            λ t k.
              has-claim_all ws no_owners t h
              ∙ has_of_All (λ t. Sets.has t (owner_tasks ws) ≡ true) active_task_ids t a k,
    )

    Exclusive-of_ok :
        validate_primary_worktree_invariant api active_task_ids ws ≡ ok tt
        → Exclusive active_task_ids ws
    unfolding validate_primary_worktree_invariant
    Exclusive-of_ok h =
        let tasks = Sets.of_list active_task_ids in
        let (u, first, rest) =
          >>=-eq-ok (guard (nat_eq (length tasks) (length active_task_ids)) duplicate_active)
            (λ _. claim_all api ws no_owners >>= require_primaries api tasks) h in
        let (s, second, last) =
          >>=-eq-ok (claim_all api ws no_owners) (require_primaries api tasks) rest in
        let c = Claims-claim_all ws no_owners second in
        record {
          unique_active = (length-of_list active_task_ids).0 (ground arith);
          one_worktree = c.one_worktree;
          one_task = c.one_task;
          owned = (owned_iff second).0 (
              (All-of_list (λ t. Maps.has t s.primary_by_task ≡ true) active_task_ids).0
                ((require_primaries_iff tasks s).0 last));
        }

    Fresh-nil : (xs : List String) → Fresh {V = String} [] xs
    unfolding Maps.get
    Fresh-nil [] = tt
    Fresh-nil (x ∷ xs) = (refl, Fresh-nil xs)

    ok_of_Exclusive :
        Exclusive active_task_ids ws
        → validate_primary_worktree_invariant api active_task_ids ws ≡ ok tt
    unfolding validate_primary_worktree_invariant
    ok_of_Exclusive e =
        let (s, h) = claim_all-Claims ws no_owners (record {
          one_worktree = e.one_worktree;
          new_tasks = Fresh-nil (owner_tasks ws);
          one_task = e.one_task;
          new_paths = Fresh-nil (owner_paths ws);
        }) in
        let p = (require_primaries_iff (Sets.of_list active_task_ids) s).1 (
          (All-of_list (λ t. Maps.has t s.primary_by_task ≡ true) active_task_ids).1
            ((owned_iff h).1 e.owned)) in
        ground (arith, (length-of_list active_task_ids).1 e.unique_active)

    -- The check passes exactly if the active task ids are unique, no task holds two primary
    -- worktrees, no two of them are at one physical location, and each active task holds one;
    -- the worktrees that count are those provisioning or active.
    pub validate_primary_worktree_invariant_iff :
        (validate_primary_worktree_invariant api active_task_ids ws ≡ ok tt)
        ↔ Exclusive active_task_ids ws
    validate_primary_worktree_invariant_iff = (Exclusive-of_ok, ok_of_Exclusive)
