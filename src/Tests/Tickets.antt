-- ===== src/Tests/Tickets.antt =====
-- The ticket system's requests.
use nms.Prelude.{
  ◌⊎◌, inl, inr, ℕ, ◌≡◌, refl, true, ◌||◌, [], ◌∷◌, String, none, some, ◌==◌, Mem, pos, negsuc,
  trim_space, to_lower, has_prefix, str_eq, if◌then◌else◌,
}
use nms.Config.{Os, env_or_file}
use nms.Sql.{Conn, execute}
use nms.Incident.Status.{new}
use nms.Itsm.Mapping.{
  ItsmMapping, ItsmDb, External, chosen_inbound, inbound_applies, inbound_before,
}
use nms.Itsm.Webhook.{
  InboundInput, InboundRequest, plain, apply_resolved, resolve_body, itsm_inbound_webhook,
  itsm_inbound_dry_run, constant_time_token_equal, request_itsm_token, inbound_itsm_token,
  bearer_or,
}
use nms.Itsm.Chosen.{Answers, NotAfter, chosen_inbound-best}
use nms.Itsm.Guard.{IsAuthorized, only_tokens_pass, itsm_inbound_dry_run-agrees}
use nms.Tests.Data.{fan_db}

abbrev done_mapping : ItsmMapping
done_mapping = record {
  id = 1;
  provider = "jira";
  external_status = "done";
  external_priority = "";
  external_owner = "";
  mapped_status = "resolved";
  mapped_assignee = "";
  enabled = true;
  priority = pos 100;
  created_at = 0;
}

abbrev urgent_mapping : ItsmMapping
urgent_mapping = record done_mapping {
  id = 2;
  external_status = "";
  mapped_status = "closed";
  priority = negsuc 0;
}

abbrev ticket : External
ticket = record { provider = "jira"; status = "done"; priority = "low"; owner = "" }

-- The first mapping answers the ticket, and one with a lower priority is chosen.
chosen_inbound-best_example :
    (r : ItsmMapping) × (chosen_inbound ticket (done_mapping ∷ urgent_mapping ∷ []) ≡ some r)
    × Mem r (done_mapping ∷ urgent_mapping ∷ [])
    × Answers ticket r
    × NotAfter r done_mapping
unfolding to_lower
chosen_inbound-best_example =
    chosen_inbound-best ticket [] (urgent_mapping ∷ []) done_mapping (record {
      is_enabled = refl;
      provider = inr refl;
      status = inr refl;
      ticket_priority = inl refl;
      owner = inl refl;
    })

abbrev token_os : Os
token_os = record {
  getenv = λ name. if str_eq name "NMS_ITSM_INBOUND_TOKEN" then "s3cret" else "";
  read_file = λ name. none;
}

abbrev fan_ticket : InboundInput
fan_ticket = record {
  incident_id = 1;
  provider = "jira";
  status = "ack";
  priority = "";
  owner = "";
  assignee = "";
  comment = "";
  changed_by = "";
}

abbrev post : InboundRequest
post = record {
  method = "POST";
  authorization = "Bearer s3cret";
  x_itsm_token = "";
  body = some fan_ticket;
}

abbrev tickets : Conn ItsmDb
tickets = record {
  db = record { tables = fan_db; mappings = done_mapping ∷ []; next_mapping = 2 };
  faults = [];
}

-- The digest of these tests is the text itself.
abbrev digest : String → String
digest text = text

only_tokens_pass_example :
    ((code : ℕ) × (message : String) × (itsm_inbound_webhook token_os digest post tickets
        ≡ (plain code message, tickets))
      × ((code == 405 || code == 503 || code == 401) ≡ true))
    ⊎ (IsAuthorized token_os digest post
        × (itsm_inbound_webhook token_os digest post tickets
            ≡ apply_resolved (resolve_body token_os post.body tickets)))
only_tokens_pass_example = only_tokens_pass token_os digest post tickets

-- The ticket's "ack" acknowledges the incident.
ack_works : (itsm_inbound_webhook token_os digest post tickets).0.code ≡ 200
unfolding itsm_inbound_webhook execute nms.Itsm.Webhook.apply_resolved
    nms.Itsm.Webhook.decode_and_resolve_itsm_inbound inbound_itsm_token trim_space env_or_file
    constant_time_token_equal request_itsm_token bearer_or has_prefix to_lower
    nms.Itsm.Webhook.resolve_body nms.Itsm.Webhook.with_mapping
    nms.Itsm.Mapping.resolve_itsm_inbound_mapping nms.Itsm.Webhook.apply_itsm_inbound_mapping
    chosen_inbound inbound_applies nms.Itsm.Mapping.external
    nms.Incident.Itsm.apply_itsm_inbound_update nms.Incident.Itsm.itsm_answer
    nms.Incident.Itsm.itsm_assignee nms.Incident.Itsm.itsm_row nms.Incident.Itsm.itsm_status
    nms.Incident.Itsm.itsm_tx nms.Incident.Itsm.requested_status
    nms.Incident.Status.allowed_incident_transitions nms.Incident.Status.is_allowed
    nms.Incident.Status.normalize_incident_status nms.Incident.Tables.device_address
    nms.Incident.Tables.found_incident nms.Incident.Tables.get_incident_by_id
    nms.Incident.Tables.insert_incident_transition nms.Incident.Tables.select_incident
    nms.Incident.Tables.update_incident_assignee nms.Incident.Tables.update_incident_status
    inbound_before nms.Itsm.Mapping.normalize_itsm_provider nms.Itsm.Webhook.inbound_answer
    nms.Itsm.Webhook.inbound_itsm_provider_default
    nms.Itsm.Webhook.normalize_inbound_incident_status
ack_works = refl

itsm_inbound_dry_run-agrees_example :
    ((itsm_inbound_dry_run token_os digest post tickets).0.code ≡ 200)
    × ((itsm_inbound_dry_run token_os digest post tickets).0.resolved
        ≡ (itsm_inbound_webhook token_os digest post tickets).0.resolved)
    × ((itsm_inbound_dry_run token_os digest post tickets).1.db ≡ tickets.db)
    × ((itsm_inbound_dry_run token_os digest post tickets).0.notices ≡ [])
itsm_inbound_dry_run-agrees_example =
    itsm_inbound_dry_run-agrees token_os digest post tickets ack_works
