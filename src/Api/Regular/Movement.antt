-- ===== src/Api/Regular/Movement.antt =====
-- From which open incident a component moves to a new one (processComponentInOpenedIncidents and
-- tryMoveComponentIfFound in internal/api/v2/v2.go), and what that leaves in the tables.
use status_dashboard_backend.Common.{
  ℕ, ◌≡◌, Bool, ◌&&◌, not, ◌==◌, nat_eq, Option, none, some, length,
}
use status_dashboard_backend.Model.{Time, Incident}
use status_dashboard_backend.Store.Tables.{Db}
use status_dashboard_backend.Store.Moves.Moved.{IsMoved}
use status_dashboard_backend.Api.Regular.{should_skip_incident, has_component}

-- An open incident, no maintenance and no information event, that has the component.
abbrev pub gives : ℕ → Incident → Bool
gives c inc = not (should_skip_incident inc) && has_component c inc

-- The tables after the move of `c` from the incident that gives it, if there is one.
abbrev pub MovedFrom : Time → ℕ → Incident → ℕ → Db → Db → Option Incident → Type 0
MovedFrom now c new j db db' none = db' ≡ db
MovedFrom now c new j db db' (some old) =
    IsMoved now c old new (length old.components == 1) j db db'
