-- ===== src/Engine/Journal.antt =====
-- packages/workflow-engine/src/journal.ts, the store of completed steps and of the checkpoints of
-- those in flight.
pub mod Laws
pub mod Contract
use dark_kitchen_orchestrato.Prelude.{String, Bool, Option, List, []}
use dark_kitchen_orchestrato.Prelude.Maps

-- `InMemoryJournal`, over the results and the checkpoints of the harness.
pub record Journal (V C : Type 0) : Type 0 where
  pub store : List (String × V)
  pub in_flight : List (String × C)

module _ {V C : Type 0} where
  unfoldable pub get : String → Journal V C → Option V
  get k j = Maps.get k j.store

  unfoldable pub has : String → Journal V C → Bool
  has k j = Maps.has k j.store

  unfoldable pub set : String → V → Journal V C → Journal V C
  set k v j = record j { store = Maps.put k v j.store }

  unfoldable pub mark_in_flight : String → C → Journal V C → Journal V C
  mark_in_flight k c j = record j { in_flight = Maps.put k c j.in_flight }

  unfoldable pub get_in_flight : String → Journal V C → Option C
  get_in_flight k j = Maps.get k j.in_flight

  unfoldable pub clear_in_flight : String → Journal V C → Journal V C
  clear_in_flight k j = record j { in_flight = Maps.delete k j.in_flight }

  unfoldable pub clear : Journal V C → Journal V C
  clear j = record { store = []; in_flight = [] }
