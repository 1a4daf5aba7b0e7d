-- ===== src/Workflows/Selection/Best.antt =====
-- The workflow that is selected is the best one that matches the task.
use dark_kitchen_orchestrato.Prelude.{
  ℕ, suc, ◌≤◌, String, ◌≡◌, ◌≢◌, refl, ap, sym, subst, Bool, true, false, not, ◌&&◌, ◌||◌, none,
  some, or_else, List, [], ◌∷◌, ◌++◌, All, All-append, leb, find, filter, arith, Bool-cases, inl,
  inr, if◌then◌else◌,
}
use dark_kitchen_orchestrato.Workflows.Selection.{
  ℤ, pos, negsuc, int_ltb, WorkflowSelectionTask, WorkflowConfig, applies, priority_of, indexed,
  is_not_after, insert_match, sort_matches, first_of, or_option, select_workflow_for_task,
}

-- A match that need not move behind another is not below it.
ahead_of :
    (v w : ℤ) (n i : ℕ)
    → (int_ltb v w || (not (int_ltb w v) && leb n i)) ≡ true
    → int_ltb w v ≡ false
ahead_of (pos v) (pos w) n i q = ground arith
ahead_of (pos v) (negsuc w) n i q = absurd (cc)
ahead_of (negsuc v) (pos w) n i q = refl
ahead_of (negsuc v) (negsuc w) n i q = ground arith

-- An earlier match that must move behind another is below it.
behind :
    (v w : ℤ) (n i : ℕ)
    → suc n ≤ i
    → (int_ltb v w || (not (int_ltb w v) && leb n i)) ≡ false
    → int_ltb w v ≡ true
behind v w n i k q = ground arith

-- Not above a lower one is not above.
not_above : (w v x : ℤ) → int_ltb w v ≡ false → int_ltb v x ≡ false → int_ltb w x ≡ false
not_above (pos w) (pos v) (pos x) a b = ground arith
not_above (pos w) (pos v) (negsuc x) a b = refl
not_above (pos w) (negsuc v) (pos x) a b = absurd (cc)
not_above (pos w) (negsuc v) (negsuc x) a b = refl
not_above (negsuc w) (pos v) x a b = absurd (cc)
not_above (negsuc w) (negsuc v) (pos x) a b = absurd (cc)
not_above (negsuc w) (negsuc v) (negsuc x) a b = ground arith

above : (v x : ℤ) → int_ltb x v ≡ true → int_ltb v x ≡ false
above (pos v) (pos x) a = ground arith
above (pos v) (negsuc x) a = refl
above (negsuc v) (pos x) a = absurd (cc)
above (negsuc v) (negsuc x) a = ground arith

module _ (fits : WorkflowConfig → Bool) where
  -- `w` stands in the list, fits, and no workflow that fits has a higher priority, or the same one
  -- at an earlier place.
  abbrev pub IsBest : List WorkflowConfig → WorkflowConfig → Type 0
  IsBest ws w =
      (before : List WorkflowConfig) × (after : List WorkflowConfig) × (ws ≡ before ++ w ∷ after)
      × (fits w ≡ true)
      × All (λ x. fits x ≡ true → int_ltb (priority_of x) (priority_of w) ≡ true) before
      × All (λ x. fits x ≡ true → int_ltb (priority_of w) (priority_of x) ≡ false) after

  abbrev NoneFits : List WorkflowConfig → Type 0
  NoneFits ws = All (λ x. fits x ≡ false) ws

  abbrev ranked : ℕ → List WorkflowConfig → List (WorkflowConfig × ℕ)
  ranked n ws = sort_matches (filter (λ x. fits x.0) (indexed n ws))

  module _ (w v : WorkflowConfig) (q : int_ltb (priority_of w) (priority_of v) ≡ false) where
    lower_before :
        (xs : List WorkflowConfig)
        → All (λ x. fits x ≡ true → int_ltb (priority_of x) (priority_of v) ≡ true) xs
        → All (λ x. fits x ≡ true → int_ltb (priority_of w) (priority_of x) ≡ false) xs
    lower_before [] h = tt
    lower_before (x ∷ xs) h = (
      λ g.
          not_above (priority_of w) (priority_of v) (priority_of x) q
            (above (priority_of v) (priority_of x) (h.0 g)),
      lower_before xs h.1,
    )

    lower_after :
        (xs : List WorkflowConfig)
        → All (λ x. fits x ≡ true → int_ltb (priority_of v) (priority_of x) ≡ false) xs
        → All (λ x. fits x ≡ true → int_ltb (priority_of w) (priority_of x) ≡ false) xs
    lower_after [] h = tt
    lower_after (x ∷ xs) h = (
      λ g. not_above (priority_of w) (priority_of v) (priority_of x) q (h.0 g),
      lower_after xs h.1,
    )

  -- A workflow not below the best one is not below any that fits.
  lower :
      (w v : WorkflowConfig) (xs : List WorkflowConfig)
      → IsBest xs v
      → int_ltb (priority_of w) (priority_of v) ≡ false
      → All (λ x. fits x ≡ true → int_ltb (priority_of w) (priority_of x) ≡ false) xs
  lower w v xs (before, after, p, f, x, y) q =
      subst (All (λ x. fits x ≡ true → int_ltb (priority_of w) (priority_of x) ≡ false)) (sym p) (
        All-append (λ x. fits x ≡ true → int_ltb (priority_of w) (priority_of x) ≡ false) before
          (v ∷ after) (lower_before w v q before x) ((λ g. q), lower_after w v q after y))

  -- What the head of the sorted matches is.
  data Head (n : ℕ) (ws : List WorkflowConfig) (l : List (WorkflowConfig × ℕ)) : Type 0 where
    empty : l ≡ [] → NoneFits ws → Head n ws l
    best :
        (w : WorkflowConfig) (i : ℕ) (rest : List (WorkflowConfig × ℕ))
        → l ≡ (w, i) ∷ rest
        → n ≤ i
        → IsBest ws w
        → Head n ws l

  Head-ranked : (n : ℕ) (ws : List WorkflowConfig) → Head n ws (ranked n ws)
  unfolding sort_matches
  Head-ranked n [] = empty refl tt
  Head-ranked n (w ∷ ws) = elim (Bool-cases (fits w)) [
    | inl e ↦ rw e (fit e (ranked (suc n) ws) (Head-ranked (suc n) ws))
    | inr e ↦ rw e (unfit e (Head-ranked (suc n) ws))
  ]
    where
      unfit :
          fits w ≡ false → Head (suc n) ws (ranked (suc n) ws) → Head n (w ∷ ws) (ranked (suc n) ws)
      unfit e (empty a z) = empty a (e, z)
      unfit e (best v i rest a k (before, after, p, f, b, c)) =
          best v i rest a (omega arith)
            (w ∷ before, after, ap (λ l. w ∷ l) p, f, ((λ g. absurd (cc)), b), c)

      fit :
          fits w ≡ true
          → (l : List (WorkflowConfig × ℕ)) → Head (suc n) ws l
          → Head n (w ∷ ws) (insert_match (w, n) l)
      fit e l (empty a z) =
          rw a (best w n [] refl (omega arith) ([], ws, refl, e, tt, none_higher ws z))
        where
          none_higher :
              (xs : List WorkflowConfig)
              → NoneFits xs
              → All (λ x. fits x ≡ true → int_ltb (priority_of w) (priority_of x) ≡ false) xs
          none_higher [] z = tt
          none_higher (x ∷ xs) z = (λ g. absurd (cc (z.0, g)), none_higher xs z.1)
      fit e l (best v i rest a k b) = rw a (ahead (is_not_after (w, n) (v, i)) refl)
        where
          ahead :
              (t : Bool)
              → is_not_after (w, n) (v, i) ≡ t
              → Head n
                  (w ∷ ws)
                  (if t then (w, n) ∷ (v, i) ∷ rest else (v, i) ∷ insert_match (w, n) rest)
          ahead true q =
              best w n ((v, i) ∷ rest) refl (omega arith) (
                [],
                ws,
                refl,
                e,
                tt,
                lower w v ws b (ahead_of (priority_of v) (priority_of w) n i q),
              )
          ahead false q =
              let (before, after, p, f, x, y) = b in
              best v i (insert_match (w, n) rest) refl (omega arith) (
                w ∷ before,
                after,
                ap (λ l. w ∷ l) p,
                f,
                ((λ g. behind (priority_of v) (priority_of w) n i k q), x),
                y,
              )

-- A list with a member that passes has a first one.
find-holds :
    (p : WorkflowConfig → Bool) (before : List WorkflowConfig) (w : WorkflowConfig)
    (after : List WorkflowConfig)
    → p w ≡ true
    → find p (before ++ w ∷ after) ≢ none
find-holds p [] w after f e = absurd (cc (rw f at e))
find-holds p (x ∷ before) w after f e = elim (Bool-cases (p x)) [
  | inl q ↦ absurd (cc (rw q at e))
  | inr q ↦ find-holds p before w after f (rw q at e)
]

-- If some configured workflow applies to the task, the selected one applies, has the highest
-- priority of those that apply, and stands first among those of its priority.
pub select-IsBest :
    (normalize : String → String) (ws : List WorkflowConfig) (task : WorkflowSelectionTask)
    → find (applies normalize task) ws ≢ none
    → (w : WorkflowConfig) × (select_workflow_for_task normalize ws task ≡ some w)
      × IsBest (applies normalize task) ws w
unfolding select_workflow_for_task
select-IsBest normalize ws task h = go (Head-ranked (applies normalize task) 0 ws)
  where
    nothing :
        (xs : List WorkflowConfig)
        → NoneFits (applies normalize task) xs
        → find (applies normalize task) xs ≡ none
    nothing [] z = refl
    nothing (x ∷ xs) z = rw z.0 (nothing xs z.1)

    go :
        Head (applies normalize task) 0 ws (ranked (applies normalize task) 0 ws)
        → (w : WorkflowConfig) × (select_workflow_for_task normalize ws task ≡ some w)
          × IsBest (applies normalize task) ws w
    go (empty a z) = absurd (h (nothing ws z))
    go (best w i rest a k b) = (w, rw a refl, b)

-- If none applies, the first workflow marked as the default is selected, and without one the first.
select_fallback :
    (normalize : String → String) (ws : List WorkflowConfig) (task : WorkflowSelectionTask)
    → find (applies normalize task) ws ≡ none
    → select_workflow_for_task normalize ws task
      ≡ or_option (find (λ w. or_else w.is_default false) ws) (first_of ws)
unfolding select_workflow_for_task
select_fallback normalize ws task h = go (Head-ranked (applies normalize task) 0 ws)
  where
    go :
        Head (applies normalize task) 0 ws (ranked (applies normalize task) 0 ws)
        → select_workflow_for_task normalize ws task
          ≡ or_option (find (λ w. or_else w.is_default false) ws) (first_of ws)
    go (empty a z) = rw a refl
    go (best w i rest a k (before, after, p, f, x, y)) = absurd (
        find-holds (applies normalize task) before w after f
          (subst (λ l. find (applies normalize task) l ≡ none) p h))
