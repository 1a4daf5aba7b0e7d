-- ===== src/Runtime/Interventions.antt =====
-- `InterventionService` of packages/runtime/src/interventions.ts over the store of interventions.
-- One call runs at a time; the identifier and the time that it draws are arguments, as are the
-- hash of a key and the redaction of texts.
pub mod Single
pub mod Settled
pub mod AskHuman
use Prim.Native.String.{◌++◌ as append}
use dark_kitchen_orchestrato.Prelude.{
  String, Bool, true, false, not, Option, none, some, or_else, List, [], ◌∷◌, Result, ok, err, ◌==◌,
  find, filter, if◌then◌else◌,
}
use dark_kitchen_orchestrato.Prelude.Maps
use dark_kitchen_orchestrato.Runtime.Intervention.{
  Intervention, InterventionStatus, opened, resolved, dismissed, CreateInterventionInput,
  ResolveInterventionInput, ResolutionAction, retry, switch_harness, approve, stop, free_text,
  InterventionError, not_found, cannot_resolve, trim, if_any, validate_create_input,
  validate_resolve_input, is_active, same_nature,
}

-- The store with `activeByKey`.
pub record Interventions : Type 0 where
  pub store : List (String × Intervention)
  pub active_by_key : List (String × String)

abbrev pub action_text : ResolutionAction → String
action_text retry = "retry"
action_text switch_harness = "switch-harness"
action_text approve = "approve"
action_text stop = "stop"
action_text free_text = "free-text"

-- The calls of clients.
pub data Request : Type 0 where
  creation : CreateInterventionInput → String → String → Request
  resolution : ResolveInterventionInput → String → Request
  dismissal : String → Option String → String → Request

-- `if (existing) return existing`
abbrev pub existing_or :
    Interventions
    → Option Intervention
    → Interventions × Intervention
    → Interventions × Intervention
existing_or s (some i) made = (s, i)
existing_or s none made = made

module _ (id_for_key redact : String → String) where
  -- The record that a known deduplication key leads to.
  abbrev pub known_record : Option String → Interventions → Option Intervention
  known_record none s = none
  known_record (some key) s =
      Maps.get (or_else (Maps.get key s.active_by_key) (id_for_key key)) s.store

  abbrev pub new_record : CreateInterventionInput → Option String → String → String → Intervention
  new_record input key drawn now = record {
    id = elim key [ none ↦ drawn | some k ↦ id_for_key k ];
    scope = input.scope;
    target_id = input.target_id;
    kind = input.kind;
    status = opened;
    summary = redact input.summary;
    details = elim (if_any input.details) [ none ↦ none | some d ↦ some (redact d) ];
    created_at = now;
    updated_at = now;
    resolved_at = none;
  }

  abbrev pub save_new : Option String → Intervention → Interventions → Interventions
  save_new key i s = record {
    store = Maps.put i.id i s.store;
    active_by_key = elim key [ none ↦ s.active_by_key | some k ↦ Maps.put k i.id s.active_by_key ];
  }

  -- `createOnce`
  unfoldable pub create_once :
      CreateInterventionInput → String → String → Interventions → Interventions × Intervention
  create_once input drawn now s =
      let key = if_any input.deduplication_key in
      existing_or s (known_record key s) (
        existing_or s
          (find (same_nature input.kind input.scope input.target_id) (Maps.values s.store))
          (save_new key (new_record input key drawn now) s, new_record input key drawn now))

  -- `create`
  unfoldable pub create :
      CreateInterventionInput
      → String
      → String
      → Interventions
      → Interventions × Result InterventionError Intervention
  create input drawn now s = elim (validate_create_input input) [
    | err e ↦ (s, err e)
    | ok u ↦ ((create_once input drawn now s).0, ok (create_once input drawn now s).1)
  ]

  -- A text as it is shown: redacted, and none where it is empty.
  abbrev pub redacted : Option String → Option String
  redacted o = elim (if_any o) [ none ↦ none | some t ↦ if_any (some (redact t)) ]

  -- The details of a resolved intervention.
  abbrev pub resolution_details : ResolveInterventionInput → Option String → Option String
  resolution_details input details =
      let redacted : Option String → Option String =
        λ o. elim (if_any o) [ none ↦ none | some t ↦ if_any (some (redact t)) ] in
      let by : String = elim (redacted input.resolved_by) [
        | none ↦ ""
        | some r ↦ append " by " r
      ] in
      elim (redacted input.answer) [
        | none ↦ details
        | some answer ↦
            or_else
              (elim (if_any (
                some (
                  trim (
                    append (or_else details "") (
                      append "\nResolution ("
                        (append (action_text input.action) (append by (append "): " answer)))))))) [
                          | none ↦ none
                          | some t ↦ some (some t)
                        ])
              details
      ]

  abbrev pub resolved_record : ResolveInterventionInput → String → Intervention → Intervention
  resolved_record input now i = record i {
    status = resolved;
    updated_at = now;
    resolved_at = some now;
    details = resolution_details input i.details;
  }

  -- `resolve`, with the keys of the intervention dropped.
  unfoldable pub resolve :
      ResolveInterventionInput
      → String
      → Interventions
      → Interventions × Result InterventionError Intervention
  resolve input now s = elim (validate_resolve_input input) [
    | err e ↦ (s, err e)
    | ok u ↦ elim (Maps.get input.intervention_id s.store) [
      | none ↦ (s, err (not_found input.intervention_id))
      | some i ↦ elim i.status [
        | resolved ↦ (s, ok i)
        | dismissed ↦ (s, err (cannot_resolve dismissed))
        | _ ↦ (
          record {
            store = Maps.put input.intervention_id (resolved_record input now i) s.store;
            active_by_key = filter (λ e. not (e.1 == input.intervention_id)) s.active_by_key;
          },
          ok (resolved_record input now i),
        )
      ]
    ]
  ]

  abbrev pub dismissed_record : Option String → String → Intervention → Intervention
  dismissed_record resolved_by now i = record i {
    status = dismissed;
    updated_at = now;
    resolved_at = some now;
    details = elim (redacted resolved_by) [
      | none ↦ i.details
      | some r ↦ some (trim (append (or_else i.details "") (append "\nDismissed by " r)))
    ];
  }

  -- `dismiss`
  unfoldable pub dismiss :
      String
      → Option String
      → String
      → Interventions
      → Interventions × Result InterventionError Intervention
  dismiss id resolved_by now s = elim (Maps.get id s.store) [
    | none ↦ (s, err (not_found id))
    | some i ↦
        if is_active i.status
        then (
          record s { store = Maps.put id (dismissed_record resolved_by now i) s.store },
          ok (dismissed_record resolved_by now i),
        )
        else (s, ok i)
  ]

  unfoldable pub handle : Request → Interventions → Interventions
  unfolding create resolve dismiss
  handle (creation input drawn now) s = (create input drawn now s).0
  handle (resolution input now) s = (resolve input now s).0
  handle (dismissal id resolved_by now) s = (dismiss id resolved_by now s).0

  unfoldable pub handle_all : List Request → Interventions → Interventions
  unfolding handle
  handle_all [] s = s
  handle_all (r ∷ rs) s = handle_all rs (handle r s)
