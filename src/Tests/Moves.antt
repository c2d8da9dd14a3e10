-- ===== src/Tests/Moves.antt =====
-- The theorems about components that move between incidents, on two system incidents.
use status_dashboard_backend.Common.{
  ℕ, ℤ, ◌≡◌, refl, arith, pos, true, false, ◌==◌, nat_eq, string_eq, ◌≤◌, none, some, Option, List,
  [], ◌∷◌, ◌++◌, length, Result, ok, err,
}
use status_dashboard_backend.Event.{incident, detected}
use status_dashboard_backend.Model.{Component, Incident}
use status_dashboard_backend.Rbac.{Role, operator}
use status_dashboard_backend.Store.Tables.{Db, DbError, IncidentRow}
use status_dashboard_backend.Store.Read.{find_row, with_statuses}
use status_dashboard_backend.Store.Tx.{Driver, reliable}
use status_dashboard_backend.Store.Write.{new_row}
use status_dashboard_backend.Store.Moves.Moved.{Left}
use status_dashboard_backend.Store.Changes.{extracted, extract_components_to_new_incident}
use status_dashboard_backend.Store.Changes.Extracted.{
  IsExtracted, extract_components_lem, extract_failure_leaves_row,
}
use status_dashboard_backend.Store.Lookup.{get_events_by_component_id}
use status_dashboard_backend.Api.Response.{Refusal, Caller}
use status_dashboard_backend.Api.Create.{IncidentData}
use status_dashboard_backend.Api.Joining.{move_or_raise, component_params}
use status_dashboard_backend.Api.Joining.Closing.{source_row_by_target}
use status_dashboard_backend.Api.System.{process_system_incident_component}
use status_dashboard_backend.Api.System.Priority.{settling, names, process_component_settled}
use status_dashboard_backend.Api.Regular.{move_component}
use status_dashboard_backend.Api.Extract.{prepare_extract}
use status_dashboard_backend.Api.Extract.Rest.{has, ids, prepare_extract_rest}
use status_dashboard_backend.Tests.Data.{row_of, event_with}

abbrev component : ℕ → Component
component i = record { id = i; name = "api"; attrs = record { name = "region"; value = "eu" } ∷ [] }

-- an open system incident
abbrev outage_of : ℕ → ℤ → List Component → Incident
outage_of i impact cs = record (event_with incident detected impact none []) {
  id = i;
  system = true;
  components = cs;
}

abbrev row_with : Incident → List ℕ → IncidentRow
row_with inc cs = record (row_of inc) { component_ids = cs }

abbrev lower : Incident
lower = outage_of 7 (pos 1) (component 1 ∷ component 2 ∷ [])

abbrev higher : Incident
higher = outage_of 8 (pos 2) (component 3 ∷ [])

abbrev two_outages : Db
two_outages = record {
  incidents = row_with lower (1 ∷ 2 ∷ []) ∷ row_with higher (3 ∷ []) ∷ [];
  statuses = [];
  components = component 1 ∷ component 2 ∷ component 3 ∷ [];
  outbox = [];
  next_incident = 9;
  next_status = 1;
  next_outbox = 1;
  next_component = 4;
}

abbrev raised : IncidentData
raised = record {
  title = "Outage";
  description = "";
  impact = pos 2;
  components = 1 ∷ [];
  start_date = 100;
  end_date = none;
  system = some true;
  type = incident;
  updates = [];
  contact_email = [];
  status = detected;
}

abbrev value_or {ℓ} : {E A : Type ℓ} → A → Result E A → A
value_or a (ok b) = b
value_or a (err e) = a

abbrev move : Result DbError Incident × Db
move = move_or_raise reliable 300 (component 1) raised lower (higher ∷ []) two_outages

move_runs : move ≡ (ok (value_or lower move.0), move.1)
unfolding move_or_raise
move_runs = refl

source_row_by_target_example :
    (row : IncidentRow) × (find_row move.1 7 ≡ some row)
    × Left 300 1 lower (length higher.components == 1) row
source_row_by_target_example =
    source_row_by_target reliable 300 (component 1) raised lower higher (higher ∷ []) two_outages
      (omega arith) (omega arith) refl move_runs

abbrev taken : Result DbError (Incident × List Incident) × Db
taken = move_component reliable 300 (component 1) higher (lower ∷ []) two_outages

abbrev settled : Option Incident
settled = settling raised.impact (get_events_by_component_id 300 3 component_params two_outages)

abbrev event_or : Incident → Option Incident → Incident
event_or e none = e
event_or e (some x) = x

settles : settled ≡ some (event_or lower settled)
unfolding get_events_by_component_id with_statuses
settles = refl

process_component_settled_example :
    process_system_incident_component reliable 300 (component 3) raised two_outages ≡ (
      ok (names reliable 300 (component 3) raised two_outages (event_or lower settled)),
      two_outages,
    )
process_component_settled_example =
    process_component_settled reliable 300 (component 3) raised two_outages (event_or lower settled)
      settles

abbrev extraction : Result DbError Incident × Db
extraction =
    extract_components_to_new_incident reliable 300 (component 1 ∷ []) lower (pos 1) "Outage" none
      two_outages

extraction_runs : extraction ≡ (ok (value_or lower extraction.0), extraction.1)
unfolding extract_components_to_new_incident
extraction_runs = refl

extract_components_lem_example : IsExtracted (component 1 ∷ []) lower 1 8 two_outages extraction.1
extract_components_lem_example =
    extract_components_lem reliable 300 (component 1 ∷ []) lower (pos 1) "Outage" none 1 8
      two_outages (omega arith) (omega arith) (omega arith) (omega arith) extraction_runs

abbrev failing : Driver
failing = record { begin_fails = true; commit_fails = false }

extract_failure_leaves_row_example :
    (e : DbError) × (db' : Db) × (extract_components_to_new_incident failing 300
        (component 1 ∷ [])
        lower
        (pos 1)
        "Outage"
        none
        two_outages
      ≡ (err e, db'))
    × (db'.incidents
        ≡ two_outages.incidents
          ++ new_row 300 9 (extracted 300 (component 1 ∷ []) (pos 1) "Outage" none) ∷ [])
extract_failure_leaves_row_example =
    extract_failure_leaves_row failing 300 (component 1) [] lower (pos 1) "Outage" none two_outages
      refl refl

abbrev caller : Caller
caller = record { role = some operator; user_id = some "anna"; user_email = none }

abbrev prepared : Result Refusal (List Component)
prepared = prepare_extract caller lower (1 ∷ [])

prepared_runs : prepared ≡ ok (value_or [] prepared)
unfolding prepare_extract
prepared_runs = refl

prepare_extract_rest_example :
    (role : Role) × (caller.role ≡ some role)
    × (operator ≤ role)
    × (lower.type ≡ incident)
    × (ids (value_or [] prepared) ≡ 1 ∷ [])
    × (i : ℕ) × (has (ids lower.components) i ≡ true)
    × (has (1 ∷ []) i ≡ false)
prepare_extract_rest_example =
    prepare_extract_rest caller lower (1 ∷ []) (tt, tt) ((omega arith, tt), (tt, tt)) prepared_runs
