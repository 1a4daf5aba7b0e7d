-- ===== src/Runtime/PrLifecycle/Rounds.antt =====
-- What the whole loop of `PrLifecycleOrchestrator.run` leaves on the trace.
use dark_kitchen_orchestrato.Prelude.{
  ℕ, suc, zero, ◌+◌, ◌≤◌, String, ◌≡◌, refl, Bool, true, false, Option, Result, err, ok, ◌∷◌, ltb,
  any, arith,
}
use dark_kitchen_orchestrato.Runtime.PrLifecycle.{
  TextApi, Services, PrLifecycleOptions, PrLifecycleResult, PullRequest, Event, find_pull_request,
  create_pull_request, update_body, get_pull_request, poll_checks, merge_base, merge, verify_merged,
  close_task, delete_branch, release_worktree, Trace,
}
use dark_kitchen_orchestrato.Runtime.PrLifecycle.Merging.{
  Turn, leave, go_on, merged_as, after_turn, turn, merge_loop,
}
use dark_kitchen_orchestrato.Runtime.PrLifecycle.Growth.{
  is_quiet, is_merge, count, Grows, here, quiet, merging, IsPlain, Fine, turn-Fine,
}

abbrev pub confirms : Event → Bool
confirms (verify_merged id (ok true)) = true
confirms _ = false

abbrev pub closes : Event → Bool
closes (close_task (ok u)) = true
closes _ = false

abbrev pub releases : Event → Bool
releases (release_worktree (ok u)) = true
releases _ = false

-- Nothing was confirmed, closed or released.
abbrev pub Untouched : Trace → Type 0
Untouched t = (any confirms t ≡ false) × (any closes t ≡ false) × (any releases t ≡ false)

quiet-Untouched : (e : Event) (t : Trace) → is_quiet e ≡ true → Untouched t → Untouched (e ∷ t)
quiet-Untouched (get_pull_request a) t q h = h
quiet-Untouched (poll_checks a) t q h = h
quiet-Untouched (merge_base a) t q h = h
quiet-Untouched (find_pull_request a) t q h = absurd (cc)
quiet-Untouched (create_pull_request title body a) t q h = absurd (cc)
quiet-Untouched (update_body id body a) t q h = absurd (cc)
quiet-Untouched (merge head a) t q h = absurd (cc)
quiet-Untouched (verify_merged id a) t q h = absurd (cc)
quiet-Untouched (close_task a) t q h = absurd (cc)
quiet-Untouched (delete_branch a) t q h = absurd (cc)
quiet-Untouched (release_worktree a) t q h = absurd (cc)

quiet-is_merge : (e : Event) → is_quiet e ≡ true → is_merge e ≡ false
quiet-is_merge (get_pull_request a) q = refl
quiet-is_merge (poll_checks a) q = refl
quiet-is_merge (merge_base a) q = refl
quiet-is_merge (find_pull_request a) q = refl
quiet-is_merge (create_pull_request title body a) q = refl
quiet-is_merge (update_body id body a) q = refl
quiet-is_merge (merge head a) q = absurd (cc)
quiet-is_merge (verify_merged id a) q = refl
quiet-is_merge (close_task a) q = refl
quiet-is_merge (delete_branch a) q = refl
quiet-is_merge (release_worktree a) q = refl

Grows-Untouched : {t u : Trace} {b : Bool} → Grows t b u → Untouched t → Untouched u
Grows-Untouched here h = h
Grows-Untouched (quiet b e u q g) h = quiet-Untouched e u q (Grows-Untouched g h)
Grows-Untouched (merging head a u g) h = Grows-Untouched g h

abbrev one_if : Bool → ℕ
one_if true = 1
one_if false = 0

count-Grows :
    {t u : Trace} {b : Bool} → Grows t b u → count is_merge u ≡ count is_merge t + one_if b
count-Grows here = omega arith
count-Grows (quiet b e u q g) = rw (quiet-is_merge e q) (count-Grows g)
count-Grows (merging head a u g) = omega (arith, count-Grows g)

one_if-le : (b : Bool) → one_if b ≤ 1
one_if-le true = omega arith
one_if-le false = omega arith

-- At most `n` merges were tried.
abbrev pub AtMost : ℕ → Trace → Type 0
AtMost n t = count is_merge t ≤ n

abbrev pub EndFine : ℕ → Result PrLifecycleResult PullRequest × Trace → Type 0
EndFine n (err r, t) = IsPlain r × Untouched t × AtMost n t
EndFine n (ok p, t) = Untouched t × AtMost n t

module _ (texts : TextApi) (options : PrLifecycleOptions) (services : Services)
    (pr : PullRequest) where
  after_turn-EndFine :
      (m n : ℕ) (next : Option String → Trace → Result PrLifecycleResult PullRequest × Trace)
      (t : Trace) (x : Turn × Trace)
      → Fine t x
      → Untouched t
      → count is_merge t + suc n ≤ m
      → ((head : Option String) (u : Trace)
          → Untouched u
          → count is_merge u + n ≤ m
          → EndFine m (next head u))
      → EndFine m (after_turn texts options services pr next x)
  after_turn-EndFine m n next t (leave r, u) (plain, (b, g)) h c rest =
      (plain, Grows-Untouched g h, omega (arith, count-Grows g, one_if-le b))
  after_turn-EndFine m n next t (go_on head, u) (plain, (b, g)) h c rest =
      rest head u (Grows-Untouched g h) (omega (arith, count-Grows g, one_if-le b))
  after_turn-EndFine m n next t (merged_as p, u) (plain, (b, g)) h c rest =
      (Grows-Untouched g h, omega (arith, count-Grows g, one_if-le b))

  pub merge_loop-EndFine :
      (m n : ℕ) (last : Option String) (t : Trace)
      → Untouched t
      → count is_merge t + n ≤ m
      → EndFine m (merge_loop texts options services pr n last t)
  unfolding merge_loop
  merge_loop-EndFine m zero last t h c = (h, omega arith)
  merge_loop-EndFine m (suc n) last t h c =
      after_turn-EndFine m n (merge_loop texts options services pr n) t
        (turn texts options services pr (ltb 0 n) last t)
        (turn-Fine texts options services pr (ltb 0 n) last t) h c
        (λ head u k d. merge_loop-EndFine m n head u k d)
