-- ===== src/Engine/Keys/Position.antt =====
-- A key depends on the place of its call among the calls of one local id, and on nothing else.
use dark_kitchen_orchestrato.Prelude.{
  ℕ, suc, ◌+◌, String, ◌≡◌, refl, ap, or_else, List, [], ◌∷◌, ◌==◌, eq_iff, arith, if◌then◌else◌,
}
use dark_kitchen_orchestrato.Prelude.Maps
use dark_kitchen_orchestrato.Prelude.Maps.{get-put}
use dark_kitchen_orchestrato.Engine.Keys.{
  KeyContext, new_builder, build_call_key, segment_of, next_segment, next_key, next_keys,
}

-- How often a local id was called.
abbrev pub times : String → List String → ℕ
times l [] = 0
times l (x ∷ xs) = let rest = times l xs in if x == l then suc rest else rest

module _ (numeral : ℕ → String) (ctx : KeyContext) where
  -- The keys of a row of calls after those of `seen`, each from the number of calls of its id.
  abbrev pub keys_by_position : List String → List String → List String
  keys_by_position seen [] = []
  keys_by_position seen (l ∷ ls) =
      build_call_key ctx (segment_of numeral l (times l seen)) ∷ keys_by_position (l ∷ seen) ls

  abbrev Counts : List (String × ℕ) → List String → Type 0
  Counts m seen = (l : String) → or_else (Maps.get l m) 0 ≡ times l seen

  Counts-put :
      (l : String) (m : List (String × ℕ)) (seen : List String)
      → Counts m seen
      → Counts (Maps.put l (times l seen + 1) m) (l ∷ seen)
  Counts-put l m seen h k = ground (arith, get-put l k (times l seen + 1) m, h k, eq_iff l k)

  keys-from :
      (ls seen : List String) (m : List (String × ℕ))
      → Counts m seen
      → next_keys numeral ls (record { key_ctx = ctx; call_counters = m })
        ≡ keys_by_position seen ls
  unfolding next_keys next_key next_segment
  keys-from [] seen m h = refl
  keys-from (l ∷ ls) seen m h = rw (h l) (
      ap (λ ks. build_call_key ctx (segment_of numeral l (times l seen)) ∷ ks)
        (keys-from ls (l ∷ seen) (Maps.put l (times l seen + 1) m) (Counts-put l m seen h)))

  Counts-nothing : Counts [] []
  unfolding Maps.get
  Counts-nothing l = refl

  -- The keys of the calls on a new builder are those of their positions: a call gets its key from
  -- the builder's context, its local id and the number of earlier calls of that id, however the
  -- calls of other ids fall between.
  next_keys_lem :
      (ls : List String) → next_keys numeral ls (new_builder ctx) ≡ keys_by_position [] ls
  next_keys_lem ls = keys-from ls [] [] Counts-nothing
