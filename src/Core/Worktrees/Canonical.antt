-- ===== src/Core/Worktrees/Canonical.antt =====
-- `canonicalizeWorkspacePath` resolves through the nearest ancestor that exists.
use dark_kitchen_orchestrato.Prelude.{
  ℕ, zero, suc, ◌<◌, String, ◌≡◌, ◌≢◌, refl, none, some, Option-cases, Bool-cases, List, [], ◌∷◌,
  arith, ◌==◌, eq_iff, inl, inr, ne_of_test,
}
use dark_kitchen_orchestrato.Core.Worktrees.{PathApi, resolve_from, canonicalize_workspace_path}

module _ (api : PathApi) where
  open api use {resolve, real_path, dirname, basename, depth, depth-dirname}

  -- `Resolves n u suffix r`: from the ancestor `u`, below which `suffix` is left, the physical
  -- location is `r`; it is the normalized path `n` if no ancestor exists.
  pub data Resolves (n : String) (r : String) : String → List String → Type 0 where
    found :
        {u : String} {suffix : List String} (real : String)
        → real_path u ≡ some real
        → r ≡ resolve real suffix
        → Resolves n r u suffix
    up :
        {u : String} {suffix : List String}
        → real_path u ≡ none
        → dirname u ≢ u
        → Resolves n r (dirname u) (basename u ∷ suffix)
        → Resolves n r u suffix
    top :
        {u : String} {suffix : List String}
        → real_path u ≡ none
        → dirname u ≡ u
        → r ≡ n
        → Resolves n r u suffix

  Resolves-resolve_from :
      (k : ℕ) (n u : String) (suffix : List String)
      → depth u < k
      → (r : String) × (resolve_from api k n u suffix ≡ some r) × Resolves n r u suffix
  unfolding resolve_from
  Resolves-resolve_from zero n u suffix h = absurd (omega arith)
  Resolves-resolve_from (suc k) n u suffix h = elim (Option-cases (real_path u)) [
    | inr (real, e) ↦ (resolve real suffix, ground arith, found real e refl)
    | inl e ↦ elim (Bool-cases (dirname u == u)) [
      | inl t ↦ (n, ground arith, top e ((eq_iff (dirname u) u).0 t) refl)
      | inr f ↦
          let (r, q, p) =
            Resolves-resolve_from k n (dirname u) (basename u ∷ suffix)
              (omega (arith, depth-dirname u (ne_of_test f))) in
          (r, ground arith, up e (ne_of_test f) p)
    ]
  ]

  -- A workspace path is resolved through the nearest ancestor that exists, the missing segments
  -- added behind it, and is the normalized path if there is none. The loop always ends.
  pub canonical-Resolves :
      (path : String)
      → Resolves (resolve path []) (canonicalize_workspace_path api path) (resolve path []) []
  unfolding canonicalize_workspace_path
  canonical-Resolves path =
      let n = resolve path [] in
      let (r, q, p) = Resolves-resolve_from (suc (depth n)) n n [] (omega arith) in rw q p
