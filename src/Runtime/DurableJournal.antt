-- ===== src/Runtime/DurableJournal.antt =====
-- packages/runtime/src/durable-journal.ts: the journal in the process and the one in a database. The
-- tables of the database and JSON are arguments.
pub mod Refinement
use dark_kitchen_orchestrato.Prelude.{
  ℕ, ◌+◌, String, ◌≡◌, Bool, true, false, Option, none, some, or_else, List, [], ◌∷◌, ◌==◌,
  if◌then◌else◌,
}
use dark_kitchen_orchestrato.Prelude.Maps
use dark_kitchen_orchestrato.Engine.Journal.Contract.{JournalStore}

pub data EntryStatus : Type 0 where
  completed failed cancelled : EntryStatus

pub record DurableJournalEntry (V : Type 0) : Type 0 where
  pub call_key : String
  pub workflow_run_id : String
  pub result : Option V
  pub status : EntryStatus
  pub attempts : ℕ
  pub started_at : String
  pub completed_at : String
  pub error_message : Option String

-- `InProcessDurableJournal`
pub record InProcess (V C : Type 0) : Type 0 where
  pub entries : List (String × DurableJournalEntry V)
  pub in_flight : List (String × C)

-- The result of an entry that completed.
abbrev pub result_of : {V : Type 0} → Option (DurableJournalEntry V) → Option V
result_of none = none
result_of (some e) = elim e.status [ completed ↦ e.result | _ ↦ none ]

abbrev pub attempts_of : {V : Type 0} → Option (DurableJournalEntry V) → ℕ
attempts_of none = 0
attempts_of (some e) = e.attempts

abbrev pub started_of : {V : Type 0} → String → Option (DurableJournalEntry V) → String
started_of now none = now
started_of now (some e) = e.started_at

module _ {V C : Type 0} where
  unfoldable pub get : String → InProcess V C → Option V
  get k j = result_of (Maps.get k j.entries)

  unfoldable pub set : String → String → V → InProcess V C → InProcess V C
  set now k v j =
      let existing = Maps.get k j.entries in
      record j {
        entries =
            Maps.put k
              (record {
                call_key = k;
                workflow_run_id = "unknown";
                result = some v;
                status = completed;
                attempts = attempts_of existing + 1;
                started_at = started_of now existing;
                completed_at = now;
                error_message = none;
              })
              j.entries;
      }

  unfoldable pub set_failed : String → String → String → ℕ → InProcess V C → InProcess V C
  set_failed now k error attempts j =
      let existing = Maps.get k j.entries in
      record j {
        entries =
            Maps.put k
              (record {
                call_key = k;
                workflow_run_id = "unknown";
                result = none;
                status = failed;
                attempts = attempts;
                started_at = started_of now existing;
                completed_at = now;
                error_message = some error;
              })
              j.entries;
      }

  unfoldable pub mark_in_flight : String → C → InProcess V C → InProcess V C
  mark_in_flight k c j = record j { in_flight = Maps.put k c j.in_flight }

  unfoldable pub get_in_flight : String → InProcess V C → Option C
  get_in_flight k j = Maps.get k j.in_flight

  unfoldable pub clear_in_flight : String → InProcess V C → InProcess V C
  clear_in_flight k j = record j { in_flight = Maps.delete k j.in_flight }

  abbrev pub in_process : JournalStore V C
  in_process = record {
    State = InProcess V C;
    start = record { entries = []; in_flight = [] };
    get = get;
    has = none;
    set = set;
    mark_in_flight = λ now k c j. mark_in_flight k c j;
    get_in_flight = get_in_flight;
    clear_in_flight = clear_in_flight;
  }

-- The row after an upsert.
abbrev pub upserted : {R : Type 0} → R → (R → R) → Option R → R
upserted row change none = row
upserted row change (some old) = change old

-- A table of a database with a text as its primary key: a row by its key, `INSERT … ON CONFLICT DO
-- UPDATE`, and `DELETE`.
pub record Tables (R : Type 0) : Type 1 where
  pub Table : Type 0
  pub empty : Table
  pub select : String → Table → Option R
  pub upsert : String → R → (R → R) → Table → Table
  pub delete : String → Table → Table
  pub select-empty : (k : String) → select k empty ≡ none
  pub select-upsert :
      (k j : String) (row : R) (change : R → R) (t : Table)
      → select j (upsert k row change t)
        ≡ (if k == j then some (upserted row change (select k t)) else select j t)
  pub select-delete :
      (k j : String) (t : Table) → select j (delete k t) ≡ (if k == j then none else select j t)

-- A row of `workflow_journal`.
pub record JournalRow : Type 0 where
  pub workflow_run_id : String
  pub result : Option String
  pub status : EntryStatus
  pub attempts : ℕ
  pub started_at : String
  pub completed_at : String

-- A row of `workflow_journal_inflight`.
pub record InFlightRow : Type 0 where
  pub checkpoint : String
  pub updated_at : String

-- `JSON.stringify` and `JSON.parse` on the values of a type.
pub record Json (A : Type 0) : Type 0 where
  pub stringify : A → String
  pub parse : String → A
  pub parse-stringify : (a : A) → parse (stringify a) ≡ a

-- `SqliteDurableJournal`: its two tables.
pub record Sqlite (rows : Tables JournalRow) (marks : Tables InFlightRow) : Type 0 where
  pub journal : rows.Table
  pub in_flight : marks.Table

-- The result in a row that completed.
abbrev pub parsed : {V : Type 0} → Json V → Option JournalRow → Option V
parsed values none = none
parsed values (some row) = elim row.status [
  | completed ↦ elim row.result [ none ↦ none | some text ↦ some (values.parse text) ]
  | _ ↦ none
]

abbrev pub parsed_checkpoint : {C : Type 0} → Json C → Option InFlightRow → Option C
parsed_checkpoint checkpoints none = none
parsed_checkpoint checkpoints (some row) = some (checkpoints.parse row.checkpoint)

-- The row that is inserted, and the change of one that is there.
abbrev pub result_row : {V : Type 0} → Json V → String → String → V → JournalRow
result_row values run_id now v = record {
  workflow_run_id = run_id;
  result = some (values.stringify v);
  status = completed;
  attempts = 1;
  started_at = now;
  completed_at = now;
}

abbrev pub with_result : {V : Type 0} → Json V → String → V → JournalRow → JournalRow
with_result values now v old = record old {
  result = some (values.stringify v);
  status = completed;
  attempts = old.attempts + 1;
  completed_at = now;
}

module _ {V C : Type 0} (rows : Tables JournalRow) (marks : Tables InFlightRow) (values : Json V)
    (checkpoints : Json C) (run_id : String) where
  unfoldable pub select_result : String → Sqlite rows marks → Option V
  select_result k s = parsed values (rows.select k s.journal)

  unfoldable pub upsert_result : String → String → V → Sqlite rows marks → Sqlite rows marks
  upsert_result now k v s = record s {
    journal = rows.upsert k (result_row values run_id now v) (with_result values now v) s.journal;
  }

  unfoldable pub upsert_mark : String → String → C → Sqlite rows marks → Sqlite rows marks
  upsert_mark now k c s =
      let fresh : InFlightRow = record { checkpoint = checkpoints.stringify c; updated_at = now } in
      record s { in_flight = marks.upsert k fresh (λ old. fresh) s.in_flight }

  unfoldable pub select_mark : String → Sqlite rows marks → Option C
  select_mark k s = parsed_checkpoint checkpoints (marks.select k s.in_flight)

  unfoldable pub delete_mark : String → Sqlite rows marks → Sqlite rows marks
  delete_mark k s = record s { in_flight = marks.delete k s.in_flight }

  abbrev pub sqlite : JournalStore V C
  sqlite = record {
    State = Sqlite rows marks;
    start = record { journal = rows.empty; in_flight = marks.empty };
    get = select_result;
    has = none;
    set = upsert_result;
    mark_in_flight = upsert_mark;
    get_in_flight = select_mark;
    clear_in_flight = delete_mark;
  }
