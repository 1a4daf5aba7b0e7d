-- ===== src/Engine/Journal/Contract.antt =====
-- `JournalStore` of packages/workflow-engine/src/types.ts: the contract of a journal, what a client
-- sees of one, and when one journal stands in for another.
use dark_kitchen_orchestrato.Prelude.{
  String, ◌≡◌, refl, ap, ◌∙◌, Bool, false, ◌||◌, Option, none, some, is_some, List, [], ◌∷◌,
}
use dark_kitchen_orchestrato.Engine.Journal.{
  Journal, get, has, set, mark_in_flight, get_in_flight, clear_in_flight,
}

-- The operations over a state; a write draws the time. A journal may do without `has`; the three for
-- marks, which it may do without too, are there in each journal of the sources.
pub record JournalStore (V C : Type 0) : Type 1 where
  pub State : Type 0
  pub start : State
  pub get : String → State → Option V
  pub has : Option (String → State → Bool)
  pub set : String → String → V → State → State
  pub mark_in_flight : String → String → C → State → State
  pub get_in_flight : String → State → Option C
  pub clear_in_flight : String → State → State

pub data Call (V C : Type 0) : Type 0 where
  read look : String → Call V C
  write : String → String → V → Call V C
  mark : String → String → C → Call V C
  read_mark : String → Call V C
  unmark : String → Call V C

pub data Seen (V C : Type 0) : Type 0 where
  result : Option V → Seen V C
  known : Bool → Seen V C
  checkpoint : Option C → Seen V C
  nothing : Seen V C

-- `has?.(callKey)`
abbrev pub probed : {S : Type 0} → Option (String → S → Bool) → String → S → Bool
probed none k s = false
probed (some f) k s = f k s

module _ {V C : Type 0} where
  -- How `runAgentStep` tests for a result: `cached !== undefined`, or the journal says that it has it.
  abbrev pub recorded : (j : JournalStore V C) → String → j.State → Bool
  recorded j k s = is_some (j.get k s) || probed j.has k s

  -- What a call leaves and what its client sees.
  abbrev pub apply : (j : JournalStore V C) → Call V C → j.State → j.State
  apply j (read k) s = s
  apply j (look k) s = s
  apply j (write now k v) s = j.set now k v s
  apply j (mark now k c) s = j.mark_in_flight now k c s
  apply j (read_mark k) s = s
  apply j (unmark k) s = j.clear_in_flight k s

  abbrev pub seen : (j : JournalStore V C) → Call V C → j.State → Seen V C
  seen j (read k) s = result (j.get k s)
  seen j (look k) s = known (recorded j k s)
  seen j (read_mark k) s = checkpoint (j.get_in_flight k s)
  seen j _ s = nothing

  -- What a client sees of a row of calls.
  unfoldable pub observe : (j : JournalStore V C) → List (Call V C) → j.State → List (Seen V C)
  observe j [] s = []
  observe j (c ∷ cs) s = seen j c s ∷ observe j cs (apply j c s)

  -- States that read alike stay so.
  pub record Simulation (i j : JournalStore V C) : Type 1 where
    pub Alike : i.State → j.State → Type 0
    pub reads : (s : i.State) (t : j.State) → Alike s t → (k : String) → i.get k s ≡ j.get k t
    pub looks :
        (s : i.State) (t : j.State) → Alike s t → (k : String) → recorded i k s ≡ recorded j k t
    pub marks :
        (s : i.State) (t : j.State)
        → Alike s t
        → (k : String) → i.get_in_flight k s ≡ j.get_in_flight k t
    pub steps :
        (s : i.State) (t : j.State) → Alike s t → (c : Call V C) → Alike (apply i c s) (apply j c t)

  seen_alike :
      (i j : JournalStore V C) (sim : Simulation i j) (c : Call V C) (s : i.State) (t : j.State)
      → sim.Alike s t
      → seen i c s ≡ seen j c t
  seen_alike i j sim (read k) s t h = ap result (sim.reads s t h k)
  seen_alike i j sim (look k) s t h = ap known (sim.looks s t h k)
  seen_alike i j sim (write now k v) s t h = refl
  seen_alike i j sim (mark now k c) s t h = refl
  seen_alike i j sim (read_mark k) s t h = ap checkpoint (sim.marks s t h k)
  seen_alike i j sim (unmark k) s t h = refl

  pub observe_alike :
      (i j : JournalStore V C) (sim : Simulation i j) (cs : List (Call V C)) (s : i.State)
      (t : j.State)
      → sim.Alike s t
      → observe i cs s ≡ observe j cs t
  unfolding observe
  observe_alike i j sim [] s t h = refl
  observe_alike i j sim (c ∷ cs) s t h =
      ap (λ x. x ∷ observe i cs (apply i c s)) (seen_alike i j sim c s t h)
      ∙ ap (λ xs. seen j c t ∷ xs)
          (observe_alike i j sim cs (apply i c s) (apply j c t) (sim.steps s t h c))

  -- `InMemoryJournal`
  abbrev pub in_memory : JournalStore V C
  in_memory = record {
    State = Journal V C;
    start = record { store = []; in_flight = [] };
    get = get;
    has = some has;
    set = λ now k v j. set k v j;
    mark_in_flight = λ now k c j. mark_in_flight k c j;
    get_in_flight = get_in_flight;
    clear_in_flight = clear_in_flight;
  }
