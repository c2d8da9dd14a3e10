-- ===== src/Tests/Stores.antt =====
-- The theorems of Store on the tables of the tests.
use status_dashboard_backend.Common.{◌≡◌, refl, pos, some, none, ok, err, [], ◌∷◌, Result}
use status_dashboard_backend.Event.{in_progress, completed}
use status_dashboard_backend.Model.{Incident}
use status_dashboard_backend.Store.Tables.{Db, DbError, version_conflict}
use status_dashboard_backend.Store.Write.{modify_incident}
use status_dashboard_backend.Store.Versions.{no_lost_update}
use status_dashboard_backend.Store.Events.{IncidentsParams}
use status_dashboard_backend.Tests.Data.{window, tables, update_at}

-- the maintenance, started
abbrev started : Incident
started = record window { status = in_progress; statuses = update_at 0 in_progress 100 ∷ [] }

abbrev saved : Result DbError (Incident × Db)
saved = modify_incident 150 started tables

abbrev after_save : Db
after_save = elim saved [ ok (_, db) ↦ db | err _ ↦ tables ]

abbrev as_saved : Incident
as_saved = elim saved [ ok (inc, _) ↦ inc | err _ ↦ started ]

saves : modify_incident 150 started tables ≡ ok (as_saved, after_save)
unfolding modify_incident
saves = refl

no_lost_update_example :
    modify_incident 160 (record window { status = completed }) after_save ≡ err version_conflict
no_lost_update_example =
    no_lost_update 150 160 (pos 3) started (record window { status = completed }) tables refl refl
      refl refl refl saves

abbrev pub second_page : IncidentsParams
second_page = record {
  types = none;
  status = none;
  start_date = none;
  end_date = none;
  impact = none;
  is_system = none;
  component_ids = [];
  last_count = 0;
  is_active = none;
  limit = some 10;
  page = some 2;
}
