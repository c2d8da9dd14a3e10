-- ===== src/Api/Response.antt =====
-- What a handler answers: the refusals of internal/api/errors that the modelled handlers raise, and
-- the caller as the authentication middleware left it in the request's context.
use status_dashboard_backend.Common.{String, Option, Result, ok, err}
use status_dashboard_backend.Model.{Email}
use status_dashboard_backend.Rbac.{Role}

pub data ApiError : Type 0 where
  description_too_long type_impact_mismatch end_date_should_be_empty : ApiError
  start_date_in_future maintenance_end_date_empty updates_should_be_empty : ApiError
  patch_info_status patch_maintenance_status patch_incident_status : ApiError
  patch_closed_status patch_impact_status_wrong patch_opened_start_date : ApiError
  patch_type_forbidden version_is_required : ApiError
  contact_email_invalid contact_email_domain : ApiError
  end_date_before_start description_required : ApiError
  auth_forbidden insufficient_role maintenance_status_transition_conflict : ApiError
  version_conflicted incident_not_exist query_invalid_format : ApiError
  incident_system_creation_wrong_type extract_forbidden_role extract_forbidden_type : ApiError
  extract_unknown_component extract_all_components update_not_exist component_exist : ApiError
  component_attr_invalid_format component_not_exist notification_status_invalid : ApiError
  notification_limit_invalid notification_redrive_limit_invalid invalid_body : ApiError

pub data Refusal : Type 0 where
  bad_request : ApiError → Refusal
  forbidden : ApiError → Refusal
  conflict : ApiError → Refusal
  status_not_found : ApiError → Refusal
  internal : Refusal

pub record Caller : Type 0 where
  pub role : Option Role
  pub user_id : Option String
  pub user_email : Option Email

-- RaiseBadRequestErr for the error of a check
abbrev pub or_bad_request : {A : Type 0} → Result ApiError A → Result Refusal A
or_bad_request (ok a) = ok a
or_bad_request (err e) = err (bad_request e)
