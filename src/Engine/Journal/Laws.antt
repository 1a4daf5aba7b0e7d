-- ===== src/Engine/Journal/Laws.antt =====
-- What a client of the journal relies on.
use dark_kitchen_orchestrato.Prelude.{String, ◌≡◌, refl, none, some, ◌==◌, if◌then◌else◌}
use dark_kitchen_orchestrato.Prelude.Maps.{get-put, get-delete}
use dark_kitchen_orchestrato.Engine.Journal
use dark_kitchen_orchestrato.Engine.Journal.{
  get, set, mark_in_flight, get_in_flight, clear_in_flight,
}

module _ {V C : Type 0} where
  pub get-set :
      (k i : String) (v : V) (j : Journal.Journal V C)
      → get i (set k v j) ≡ (if k == i then some v else get i j)
  unfolding get set
  get-set k i v j = get-put k i v j.store

  pub get_in_flight-clear :
      (k i : String) (j : Journal.Journal V C)
      → get_in_flight i (clear_in_flight k j) ≡ (if k == i then none else get_in_flight i j)
  unfolding get_in_flight clear_in_flight
  get_in_flight-clear k i j = get-delete k i j.in_flight

  pub get-clear : (k i : String) (j : Journal.Journal V C) → get i (clear_in_flight k j) ≡ get i j
  unfolding get clear_in_flight
  get-clear k i j = refl

  pub get-mark :
      (k i : String) (c : C) (j : Journal.Journal V C) → get i (mark_in_flight k c j) ≡ get i j
  unfolding get mark_in_flight
  get-mark k i c j = refl
