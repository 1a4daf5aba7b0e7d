-- ===== src/Runtime/DurableJournal/Refinement.antt =====
-- The durable journals stand in for the one in memory.
use dark_kitchen_orchestrato.Prelude.{
  String, ◌≡◌, refl, ◌∙◌, ap, Option, none, some, List, ◌==◌, arith, Bool-cases, is_some, false,
  ◌||◌, inl, inr,
}
use dark_kitchen_orchestrato.Prelude.Maps
use dark_kitchen_orchestrato.Prelude.Maps.{get-put, get-delete}
use dark_kitchen_orchestrato.Engine.Journal.{Journal}
use dark_kitchen_orchestrato.Engine.Journal
use dark_kitchen_orchestrato.Engine.Journal.Contract.{
  JournalStore, Call, read, look, write, mark, read_mark, unmark, apply, observe, Simulation,
  observe_alike, in_memory,
}
use dark_kitchen_orchestrato.Runtime.DurableJournal.{
  InProcess, get, set, mark_in_flight, get_in_flight, clear_in_flight, in_process, Tables,
  JournalRow, InFlightRow, upserted, result_row, with_result, Json, Sqlite, parsed,
  parsed_checkpoint, select_result, upsert_result, upsert_mark, select_mark, delete_mark, sqlite,
}

-- The journal reads as the one in memory.
abbrev ReadsAs : {V C : Type 0} (j : JournalStore V C) → j.State → Journal V C → Type 0
ReadsAs j s m =
    (k : String) → (j.get k s ≡ Journal.get k m) × (j.get_in_flight k s ≡ Journal.get_in_flight k m)

-- The journal in memory has the keys that it has results of.
has-get :
    {V C : Type 0} (o : Option V) (m : Journal V C) (k : String)
    → o ≡ Journal.get k m
    → (is_some o || false) ≡ (is_some (Journal.get k m) || Journal.has k m)
unfolding Journal.get Journal.has
has-get o m k h = ground (arith, h)

module _ {V C : Type 0} where
  in_process-steps :
      (s : InProcess V C) (m : Journal V C)
      → ReadsAs in_process s m
      → (c : Call V C) → ReadsAs in_process (apply in_process c s) (apply in_memory c m)
  unfolding get set mark_in_flight get_in_flight clear_in_flight Journal.get Journal.set
      Journal.mark_in_flight Journal.get_in_flight Journal.clear_in_flight
  in_process-steps s m h (read k) i = h i
  in_process-steps s m h (look k) i = h i
  in_process-steps s m h (write now k v) i = elim (Bool-cases (k == i)) [
    | inl e ↦ (rw (get-put k i, get-put k i, e) refl, (h i).1)
    | inr e ↦ (rw (get-put k i, get-put k i, e) (h i).0, (h i).1)
  ]
  in_process-steps s m h (mark now k c) i =
      ((h i).0, ground (arith, get-put k i c s.in_flight, get-put k i c m.in_flight, (h i).1))
  in_process-steps s m h (read_mark k) i = h i
  in_process-steps s m h (unmark k) i =
      ((h i).0, ground (arith, get-delete k i s.in_flight, get-delete k i m.in_flight, (h i).1))

  in_process-Simulation : Simulation {V = V} {C = C} in_process in_memory
  in_process-Simulation = record {
    Alike = ReadsAs in_process;
    reads = λ s t h k. (h k).0;
    looks = λ s t h k. has-get (in_process.get k s) t k (h k).0;
    marks = λ s t h k. (h k).1;
    steps = in_process-steps;
  }

  -- Of the same calls of a new journal in the process, a client sees what the journal in memory would
  -- show, if no result is `undefined`.
  in_process-Refines :
      (cs : List (Call V C))
      → observe in_process cs in_process.start ≡ observe in_memory cs in_memory.start
  unfolding get get_in_flight Journal.get Journal.get_in_flight Maps.get in_process-Simulation
  in_process-Refines cs =
      observe_alike in_process in_memory in_process-Simulation cs in_process.start in_memory.start
        (λ k. (refl, refl))

module _ {V C : Type 0} (rows : Tables JournalRow) (marks : Tables InFlightRow) (values : Json V)
    (checkpoints : Json C) (run_id : String) where
  abbrev pub database : JournalStore V C
  database = sqlite rows marks values checkpoints run_id

  -- A row that was written reads back.
  parsed-written :
      (now : String) (v : V) (o : Option JournalRow)
      → parsed values
          (some (upserted (result_row values run_id now v) (with_result values now v) o))
        ≡ some v
  parsed-written now v none = ap some (values.parse-stringify v)
  parsed-written now v (some old) = ap some (values.parse-stringify v)

  parsed_checkpoint-marked :
      (row : InFlightRow) (c : C) (o : Option InFlightRow)
      → row.checkpoint ≡ checkpoints.stringify c
      → parsed_checkpoint checkpoints (some (upserted row (λ old. row) o)) ≡ some c
  parsed_checkpoint-marked row c none e =
      ap (λ x. some (checkpoints.parse x)) e ∙ ap some (checkpoints.parse-stringify c)
  parsed_checkpoint-marked row c (some old) e =
      ap (λ x. some (checkpoints.parse x)) e ∙ ap some (checkpoints.parse-stringify c)

  sqlite-steps :
      (s : Sqlite rows marks) (m : Journal V C)
      → ReadsAs database s m
      → (c : Call V C) → ReadsAs database (apply database c s) (apply in_memory c m)
  unfolding select_result upsert_result upsert_mark select_mark delete_mark Journal.get Journal.set
      Journal.mark_in_flight Journal.get_in_flight Journal.clear_in_flight
  sqlite-steps s m h (read k) i = h i
  sqlite-steps s m h (look k) i = h i
  sqlite-steps s m h (write now k v) i = elim (Bool-cases (k == i)) [
    | inl e ↦ (
      rw (rows.select-upsert k i, get-put k i, e) (parsed-written now v (rows.select k s.journal)),
      (h i).1,
    )
    | inr e ↦ (rw (rows.select-upsert k i, get-put k i, e) (h i).0, (h i).1)
  ]
  sqlite-steps s m h (mark now k c) i = (
    (h i).0,
    elim (Bool-cases (k == i)) [
      | inl e ↦
          rw (marks.select-upsert k i, get-put k i, e)
            (parsed_checkpoint-marked
              (record { checkpoint = checkpoints.stringify c; updated_at = now }) c
              (marks.select k s.in_flight) refl)
      | inr e ↦ rw (marks.select-upsert k i, get-put k i, e) (h i).1
    ],
  )
  sqlite-steps s m h (read_mark k) i = h i
  sqlite-steps s m h (unmark k) i = (
    (h i).0,
    elim (Bool-cases (k == i)) [
      | inl e ↦ rw (marks.select-delete k i, get-delete k i, e) refl
      | inr e ↦ rw (marks.select-delete k i, get-delete k i, e) (h i).1
    ],
  )

  sqlite-Simulation : Simulation database in_memory
  sqlite-Simulation = record {
    Alike = ReadsAs database;
    reads = λ s t h k. (h k).0;
    looks = λ s t h k. has-get (database.get k s) t k (h k).0;
    marks = λ s t h k. (h k).1;
    steps = sqlite-steps;
  }

  sqlite_start : ReadsAs database database.start in_memory.start
  unfolding select_result select_mark Journal.get Journal.get_in_flight Maps.get
  sqlite_start k = (rw (rows.select-empty k) refl, rw (marks.select-empty k) refl)

  -- Whatever calls a client makes of a new journal in a database, of reads, writes, marks, reads and
  -- clears of marks and the engine's test whether a step is recorded, it sees what the journal in
  -- memory would show, if the tables keep rows by their key, JSON reads back what it wrote and no
  -- result is `undefined`. The test asks `has`, which only the journal in memory has.
  pub sqlite-Refines :
      (cs : List (Call V C))
      → observe database cs database.start ≡ observe in_memory cs in_memory.start
  unfolding sqlite-Simulation
  sqlite-Refines cs =
      observe_alike database in_memory sqlite-Simulation cs database.start in_memory.start
        sqlite_start
