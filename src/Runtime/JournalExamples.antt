-- ===== src/Runtime/JournalExamples.antt =====
-- A row of calls of the journals, with tables that are maps.
use dark_kitchen_orchestrato.Prelude.{
  String, ◌≡◌, refl, none, some, true, false, List, [], ◌∷◌, ◌==◌, if◌then◌else◌,
}
use dark_kitchen_orchestrato.Prelude.Maps
use dark_kitchen_orchestrato.Prelude.Maps.{get-put, get-delete}
use dark_kitchen_orchestrato.Engine.Journal
use dark_kitchen_orchestrato.Engine.Journal.Contract.{
  JournalStore, Call, read, look, write, mark, read_mark, unmark, observe, in_memory, result, known,
  checkpoint, nothing,
}
use dark_kitchen_orchestrato.Runtime.DurableJournal.{
  Tables, upserted, JournalRow, InFlightRow, Json, sqlite,
}
use dark_kitchen_orchestrato.Runtime.DurableJournal.Refinement.{sqlite-Refines}

abbrev upsert : {R : Type 0} → String → R → (R → R) → List (String × R) → List (String × R)
upsert k row change t = Maps.put k (upserted row change (Maps.get k t)) t

get-upsert :
    {R : Type 0} (k j : String) (row : R) (change : R → R) (t : List (String × R))
    → Maps.get j (upsert k row change t)
      ≡ (if k == j then some (upserted row change (Maps.get k t)) else Maps.get j t)
get-upsert k j row change t = get-put k j (upserted row change (Maps.get k t)) t

get-nil : {R : Type 0} (k : String) → Maps.get {V = R} k [] ≡ none
unfolding Maps.get
get-nil k = refl

abbrev map_tables : (R : Type 0) → Tables R
map_tables R = record {
  Table = List (String × R);
  empty = [];
  select = Maps.get;
  upsert = upsert;
  delete = Maps.delete;
  select-empty = get-nil;
  select-upsert = get-upsert;
  select-delete = get-delete;
}

abbrev plain_json : Json String
plain_json = record { stringify = λ s. s; parse = λ s. s; parse-stringify = λ s. refl }

abbrev calls : List (Call String String)
calls =
    mark "t0" "a" "session"
    ∷ read_mark "a"
    ∷ write "t1" "a" "answer"
    ∷ unmark "a"
    ∷ read_mark "a"
    ∷ write "t2" "a" "second"
    ∷ read "a"
    ∷ read "b"
    ∷ look "a"
    ∷ look "b"
    ∷ []

observed :
    observe in_memory calls in_memory.start
    ≡ nothing
      ∷ checkpoint (some "session")
      ∷ nothing
      ∷ nothing
      ∷ checkpoint none
      ∷ nothing
      ∷ result (some "second")
      ∷ result none
      ∷ known true
      ∷ known false
      ∷ []
unfolding observe Journal.get Journal.has Journal.set Journal.mark_in_flight Journal.get_in_flight
    Journal.clear_in_flight Maps.get Maps.put Maps.delete
observed = refl

abbrev tables_journal : JournalStore String String
tables_journal = sqlite (map_tables JournalRow) (map_tables InFlightRow) plain_json plain_json "run"

sqlite-Refines_example :
    observe tables_journal calls tables_journal.start ≡ observe in_memory calls in_memory.start
sqlite-Refines_example =
    sqlite-Refines (map_tables JournalRow) (map_tables InFlightRow) plain_json plain_json "run"
      calls
