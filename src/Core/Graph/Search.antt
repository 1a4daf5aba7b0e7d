-- ===== src/Core/Graph/Search.antt =====
-- The depth-first search finds a cycle exactly if there is one, and its fuel suffices.
use dark_kitchen_orchestrato.Prelude.{
  ℕ, zero, suc, ◌<◌, String, ◌≡◌, refl, sym, ◌∙◌, inl, inr, true, false, List, [], ◌∷◌, Result, ok,
  err, ◌>>=◌, arith, ◌==◌, eq_iff, All, Bool-cases,
}
use dark_kitchen_orchestrato.Prelude.Sets
use dark_kitchen_orchestrato.Prelude.Sets.{has-add, has-delete, has_of_All, All-of_has}
use dark_kitchen_orchestrato.Core.Ids.{DomainError, cyclic}
use dark_kitchen_orchestrato.Core.Graph.{Marks, visit, visit_each}
use dark_kitchen_orchestrato.Core.Graph.Paths.{Path₁, edge, step, Path₁-snoc, IsAcyclic, HasCycle}
use dark_kitchen_orchestrato.Core.Graph.Visits.{
  free, free-add, free-same, visit_cyclic, visit_seen, visit_new,
}

-- What the search may end in.
pub data Outcome (edges : String → List String) (r : Result DomainError Marks) : Type 0 where
  passed : (s : Marks) → r ≡ ok s → IsAcyclic edges → Outcome edges r
  refused : r ≡ err cyclic → HasCycle edges → Outcome edges r

module _ (edges : String → List String) (ids : List String) where
  -- What holds of the marks between two visits.
  pub record Inv (s : Marks) : Type 0 where
    pub apart : (v : String) → Sets.has v s.visiting ≡ true → Sets.has v s.visited ≡ false
    pub closed :
        (v w : String)
        → Sets.has v s.visited ≡ true
        → Sets.has w (edges v) ≡ true
        → Sets.has w s.visited ≡ true
    pub acyclic : (v : String) → Sets.has v s.visited ≡ true → ¬ Path₁ edges v v

  -- What holds when `visit t` is called with fuel `n`.
  pub record Pre (n : ℕ) (t : String) (s : Marks) : Type 0 where
    pub inv : Inv s
    pub stack : (v : String) → Sets.has v s.visiting ≡ true → Path₁ edges v t
    pub known : Sets.has t ids ≡ true
    pub room : free s.visiting ids < n

  -- What a visit leaves: the same stack, and more visited.
  pub record Kept (s s' : Marks) : Type 0 where
    pub inv : Inv s'
    pub same : (v : String) → Sets.has v s'.visiting ≡ Sets.has v s.visiting
    pub grows : (v : String) → Sets.has v s.visited ≡ true → Sets.has v s'.visited ≡ true

  abbrev pub Good : (Marks → Type 0) → Result DomainError Marks → Type 0
  Good P (ok s') = P s'
  Good P (err cyclic) = HasCycle edges
  Good P (err _) = ⊥

  abbrev pub Visited : Marks → List String → Marks → Type 0
  Visited s ts s' = Kept s s' × All (λ t. Sets.has t s'.visited ≡ true) ts

  Kept-refl : (s : Marks) → Inv s → Kept s s
  Kept-refl s i = record { inv = i; same = λ v. refl; grows = λ v h. h }

  Kept-trans : {s t u : Marks} → Kept s t → Kept t u → Kept s u
  Kept-trans a b = record {
    inv = b.inv;
    same = λ v. b.same v ∙ a.same v;
    grows = λ v h. b.grows v (a.grows v h);
  }

  Pre-keep : {n : ℕ} {t : String} {s s' : Marks} → Kept s s' → Pre n t s → Pre n t s'
  Pre-keep {s = s} {s' = s'} k p = record {
    inv = k.inv;
    stack = λ v h. p.stack v (sym (k.same v) ∙ h);
    known = p.known;
    room = omega (arith, p.room, free-same s.visiting s'.visiting ids k.same);
  }

  Pre-keep-All :
      (n : ℕ) (s s' : Marks) (ts : List String)
      → Kept s s'
      → All (λ t. Pre n t s) ts
      → All (λ t. Pre n t s') ts
  Pre-keep-All n s s' [] k h = tt
  Pre-keep-All n s s' (t ∷ ts) k h = (Pre-keep k h.0, Pre-keep-All n s s' ts k h.1)

  Good-bind :
      (P Q : Marks → Type 0) (r : Result DomainError Marks) (k : Marks → Result DomainError Marks)
      → Good P r
      → ((s' : Marks) → P s' → Good Q (k s'))
      → Good Q (r >>= k)
  Good-bind P Q (ok s') k h f = f s' h
  Good-bind P Q (err cyclic) k h f = h
  Good-bind P Q (err _) k h f = absurd h

  -- A loop of visits is good if each visit is.
  pub visit_each-Good :
      (n : ℕ) (f : String → Marks → Result DomainError Marks)
      → ((t : String) (s : Marks) → Pre n t s → Good (Visited s (t ∷ [])) (f t s))
      → (ts : List String) (s : Marks) → Inv s
      → All (λ t. Pre n t s) ts
      → Good (Visited s ts) (visit_each f ts s)
  unfolding visit_each
  visit_each-Good n f hf [] s i h = (Kept-refl s i, tt)
  visit_each-Good n f hf (t ∷ ts) s i h =
      Good-bind (Visited s (t ∷ [])) (Visited s (t ∷ ts)) (f t s) (visit_each f ts) (hf t s h.0)
        λ s' p.
          Good-map (Visited s' ts) (Visited s (t ∷ ts)) (visit_each f ts s')
            (visit_each-Good n f hf ts s' (p.0).inv (Pre-keep-All n s s' ts p.0 h.1))
            λ u q. (Kept-trans p.0 q.0, ((q.0).grows t (p.1).0, q.1))
    where
      Good-map :
          (P Q : Marks → Type 0) (r : Result DomainError Marks)
          → Good P r
          → ((u : Marks) → P u → Q u)
          → Good Q r
      Good-map P Q (ok s') h f = f s' h
      Good-map P Q (err cyclic) h f = h
      Good-map P Q (err _) h f = absurd h

  closed-Path₁ :
      {s : Marks} {v w : String}
      → Inv s
      → Sets.has v s.visited ≡ true
      → Path₁ edges v w
      → Sets.has w s.visited ≡ true
  closed-Path₁ {v = v} {w = w} i h (edge k) = i.closed v w h k
  closed-Path₁ {v = v} i h (step {b = b} k p) = closed-Path₁ i (i.closed v b h k) p

  -- All that a path from `a` reaches is visited, once the successors of `a` are.
  visited-Path₁ :
      {u : Marks} {a w : String}
      → Inv u
      → All (λ d. Sets.has d u.visited ≡ true) (edges a)
      → Path₁ edges a w
      → Sets.has w u.visited ≡ true
  visited-Path₁ {u = u} {a = a} {w = w} i h (edge k) =
      has_of_All (λ d. Sets.has d u.visited ≡ true) (edges a) w h k
  visited-Path₁ {u = u} {a = a} i h (step {b = b} k p) =
      closed-Path₁ i (has_of_All (λ d. Sets.has d u.visited ≡ true) (edges a) b h k) p

  module _ (t : String) (s : Marks) (fresh : Sets.has t s.visiting ≡ false)
      (unseen : Sets.has t s.visited ≡ false) where
    -- The marks while the successors of `t` are visited.
    abbrev entered : Marks
    entered = record s { visiting = Sets.add t s.visiting }

    entered-Inv : Inv s → Inv entered
    entered-Inv i = record {
      apart = λ v h. elim (Bool-cases (t == v)) [
        | inl e ↦ rw (← (eq_iff t v).0 e) unseen
        | inr e ↦ i.apart v (ground (arith, has-add v t s.visiting))
      ];
      closed = i.closed;
      acyclic = i.acyclic;
    }

    entered-Pre :
        (n : ℕ)
        → ((a b : String) → Sets.has b (edges a) ≡ true → Sets.has b ids ≡ true)
        → Pre (suc n) t s
        → (d : String) → Sets.has d (edges t) ≡ true
        → Pre n d entered
    entered-Pre n inside p d h = record {
      inv = entered-Inv p.inv;
      stack = λ v k. elim (Bool-cases (t == v)) [
        | inl e ↦ rw (← (eq_iff t v).0 e) (edge h)
        | inr e ↦ Path₁-snoc (p.stack v (ground (arith, has-add v t s.visiting))) h
      ];
      known = inside t d h;
      room = omega (arith, p.room, free-add t s.visiting ids fresh p.known);
    }

    -- The marks when `visit t` returns.
    abbrev left : Marks → Marks
    left u = record { visiting = Sets.delete t u.visiting; visited = Sets.add t u.visited }

    module _ (u : Marks) (k : Visited entered (edges t) u) where
      left-unseen : Sets.has t u.visited ≡ false
      left-unseen =
          (k.0).inv.apart t (ground (arith, (k.0).same t, has-add t t s.visiting, eq_iff t t))

      left-closed :
          (v w : String)
          → Sets.has v (left u).visited ≡ true
          → Sets.has w (edges v) ≡ true
          → Sets.has w (left u).visited ≡ true
      left-closed v w h e = elim (Bool-cases (t == v)) [
        | inl q ↦
            let e' : Sets.has w (edges t) ≡ true = rw ((eq_iff t v).0 q) e in
            ground (
              arith,
              has-add w t u.visited,
              has_of_All (λ d. Sets.has d u.visited ≡ true) (edges t) w k.1 e',
            )
        | inr q ↦ ground (
          arith,
          has-add w t u.visited,
          (k.0).inv.closed v w (ground (arith, has-add v t u.visited)) e,
        )
      ]

      left_acyclic : (v : String) → Sets.has v (left u).visited ≡ true → ¬ Path₁ edges v v
      left_acyclic v h p = elim (Bool-cases (t == v)) [
        | inl q ↦
            let p' : Path₁ edges t t = rw ((eq_iff t v).0 q) p in
            cc (left-unseen, visited-Path₁ (k.0).inv k.1 p')
        | inr q ↦ (k.0).inv.acyclic v (ground (arith, has-add v t u.visited)) p
      ]

    left-Visited : (u : Marks) → Inv s → Visited entered (edges t) u → Visited s (t ∷ []) (left u)
    left-Visited u i k = (
      record {
        inv = record {
          apart = λ v h.
              ground (arith, has-delete v t u.visiting, has-add v t u.visited, (k.0).inv.apart v);
          closed = left-closed u k;
          acyclic = left_acyclic u k;
        };
        same = λ v.
            ground
              (arith, has-delete v t u.visiting, (k.0).same v, has-add v t s.visiting, eq_iff t v);
        grows = λ v h. ground (arith, has-add v t u.visited, (k.0).grows v h);
      },
      (ground (arith, has-add t t u.visited, eq_iff t t), tt),
    )

  -- One visit, whatever it meets: it never runs out of fuel, a cycle that it reports is there, and
  -- otherwise the stack is as before and the task is visited.
  pub visit-Good :
      ((a b : String) → Sets.has b (edges a) ≡ true → Sets.has b ids ≡ true)
      → (n : ℕ) (t : String) (s : Marks) → Pre n t s
      → Good (Visited s (t ∷ [])) (visit n edges t s)
  visit-Good inside zero t s p = absurd (omega (arith, p.room))
  visit-Good inside (suc n) t s p = elim (Bool-cases (Sets.has t s.visiting)) [
    | inl h ↦ rw (visit_cyclic n edges t s h) (t, p.stack t h)
    | inr fresh ↦ elim (Bool-cases (Sets.has t s.visited)) [
      | inl h ↦ rw (visit_seen n edges t s fresh h) (Kept-refl s p.inv, (h, tt))
      | inr unseen ↦ rw (visit_new n edges t s fresh unseen) (
          Good-bind (Visited (entered t s fresh unseen) (edges t)) (Visited s (t ∷ []))
            (visit_each (visit n edges) (edges t) (entered t s fresh unseen))
            (λ u. ok (left t s fresh unseen u))
            (visit_each-Good n (visit n edges) (visit-Good inside n) (edges t)
              (entered t s fresh unseen) (entered-Inv t s fresh unseen p.inv)
              (All-of_has (λ d. Pre n d (entered t s fresh unseen)) (edges t)
                (entered-Pre t s fresh unseen n inside p)))
            (λ u k. left-Visited t s fresh unseen u p.inv k))
    ]
  ]
