-- ===== src/Events/Registry.antt =====
-- packages/api-contracts/src/schemas/events/registry.ts: EVENT_TYPE_REGISTRY.
use canton_pillar.Base.{String, Text, codes, List, [], ◌∷◌, ◌++◌}

pub record EventType : Type 0 where
  pub type : Text
  pub family : Text
  pub owner : String
  pub version : String
  pub emitter : String
  pub shape : String

abbrev event_type : (type family owner version emitter shape : String) → EventType
event_type type family owner version emitter shape = record {
  type = codes type;
  family = codes family;
  owner = owner;
  version = version;
  emitter = emitter;
  shape = shape;
}

abbrev first_event_types : List EventType
first_event_types =
    event_type "account.created" "account" "P5.G05" "v1" "pillar" "`Account`"
    ∷ event_type "account.updated" "account" "P5.G05" "v1" "pillar" "`Account`"
    ∷ event_type "asset.created" "asset" "P5.G05" "v1" "pillar" "`Asset`"
    ∷ event_type "asset.updated" "asset" "P5.G05" "v1" "pillar" "`Asset`"
    ∷ event_type "asset.suspended" "asset" "P5.G05" "v1" "pillar" "`Asset`"
    ∷ event_type "issue_intent.requires_action" "issue_intent" "P5.G05" "v1" "pillar"
        "`IssueIntent`"
    ∷ event_type "issue_intent.processing" "issue_intent" "P5.G05" "v1" "pillar" "`IssueIntent`"
    ∷ event_type "issue_intent.succeeded" "issue_intent" "P5.G05" "v1" "pillar" "`IssueIntent`"
    ∷ event_type "issue_intent.failed" "issue_intent" "P5.G05" "v1" "pillar" "`IssueIntent`"
    ∷ event_type "issue_intent.canceled" "issue_intent" "P5.G05" "v1" "pillar" "`IssueIntent`"
    ∷ event_type "redeem_intent.requires_action" "redeem_intent" "P5.G05" "v1" "pillar"
        "`RedeemIntent`"
    ∷ event_type "redeem_intent.processing" "redeem_intent" "P5.G05" "v1" "pillar" "`RedeemIntent`"
    ∷ event_type "redeem_intent.succeeded" "redeem_intent" "P5.G05" "v1" "pillar" "`RedeemIntent`"
    ∷ event_type "redeem_intent.failed" "redeem_intent" "P5.G05" "v1" "pillar" "`RedeemIntent`"
    ∷ event_type "redeem_intent.canceled" "redeem_intent" "P5.G05" "v1" "pillar" "`RedeemIntent`"
    ∷ []

abbrev second_event_types : List EventType
second_event_types =
    event_type "transfer_intent.requires_action" "transfer_intent" "P5.G05" "v1" "pillar"
      "`TransferIntent`"
    ∷ event_type "transfer_intent.processing" "transfer_intent" "P5.G05" "v1" "pillar"
        "`TransferIntent`"
    ∷ event_type "transfer_intent.succeeded" "transfer_intent" "P5.G05" "v1" "pillar"
        "`TransferIntent`"
    ∷ event_type "transfer_intent.failed" "transfer_intent" "P5.G05" "v1" "pillar"
        "`TransferIntent`"
    ∷ event_type "transfer_intent.canceled" "transfer_intent" "P5.G05" "v1" "pillar"
        "`TransferIntent`"
    ∷ event_type "hold.created" "hold" "P5.G05" "v1" "pillar" "`Hold`"
    ∷ event_type "hold.released" "hold" "P5.G05" "v1" "pillar" "`Hold`"
    ∷ event_type "hold.consumed" "hold" "P5.G05" "v1" "pillar" "`Hold`"
    ∷ event_type "hold.expired" "hold" "P6.H07" "v1" "pillar" "`Hold`"
    ∷ event_type "webhook_endpoint.created" "webhook_endpoint" "P6.H01" "v1" "pillar"
        "`WebhookEndpoint`"
    ∷ event_type "webhook_endpoint.secret_rotated" "webhook_endpoint" "P6.H01" "v1" "pillar"
        "`WebhookEndpoint`"
    ∷ event_type "webhook_endpoint.disabled" "webhook_endpoint" "P6.H01" "v1" "pillar"
        "`WebhookEndpoint`"
    ∷ event_type "api_key.created" "api_key" "P8.K01" "v1" "pillar" "`ApiKey`"
    ∷ event_type "api_key.revoked" "api_key" "P8.K01" "v1" "pillar" "`ApiKey`"
    ∷ event_type "api_key.rotated" "api_key" "P8.K06" "v1" "pillar" "`ApiKey`"
    ∷ []

abbrev third_event_types : List EventType
third_event_types =
    event_type "export_job.queued" "export_job" "P11.M04" "v1" "pillar" "`ExportJob`"
    ∷ event_type "export_job.succeeded" "export_job" "P11.M04" "v1" "pillar" "`ExportJob`"
    ∷ event_type "export_job.failed" "export_job" "P11.M04" "v1" "pillar" "`ExportJob`"
    ∷ event_type "file.uploaded" "file" "P13.O06" "v1" "pillar" "`File`"
    ∷ event_type "file.scanned" "file" "P13.O06" "v1" "pillar" "`File`"
    ∷ event_type "file.deleted" "file" "P13.O06" "v1" "pillar" "`File`"
    ∷ event_type "evidence_file.linked" "evidence_file" "P8.K05" "v1" "pillar" "`EvidenceFile`"
    ∷ event_type "evidence_file.verified" "evidence_file" "P8.K05" "v1" "pillar" "`EvidenceFile`"
    ∷ event_type "compliance_decision.approved" "compliance_decision" "P8.K04" "v1" "pillar"
        "`ComplianceDecision`"
    ∷ event_type "compliance_decision.rejected" "compliance_decision" "P8.K04" "v1" "pillar"
        "`ComplianceDecision`"
    ∷ event_type "compliance_decision.requires_action" "compliance_decision" "P8.K04" "v1" "pillar"
        "`ComplianceDecision`"
    ∷ event_type "onboarding.completed" "onboarding" "P13.O03" "v1" "pillar" "`Onboarding`"
    ∷ event_type "onboarding.failed" "onboarding" "P13.O03" "v1" "pillar" "`Onboarding`"
    ∷ event_type "invoice.created" "invoice" "P14.Q05" "v1" "pillar" "`Invoice`"
    ∷ event_type "invoice.paid" "invoice" "P14.Q05" "v1" "pillar" "`Invoice`"
    ∷ []

abbrev fourth_event_types : List EventType
fourth_event_types =
    event_type "invoice.uncollectible" "invoice" "P14.Q05" "v1" "pillar" "`Invoice`"
    ∷ event_type "usage.threshold_reached" "usage" "P14.Q03" "v1" "pillar" "`UsageThreshold`"
    ∷ event_type "balance.updated" "balance" "P5.G03" "v1" "pillar" "`Balance`"
    ∷ event_type "holding.created" "holding" "P5.G04" "v1" "pillar" "`Holding`"
    ∷ event_type "holding.updated" "holding" "P5.G04" "v1" "pillar" "`Holding`"
    ∷ event_type "holding.closed" "holding" "P5.G04" "v1" "pillar" "`Holding`"
    ∷ event_type "transfer.created" "transfer" "P5.G05" "v1" "pillar" "`Transfer`"
    ∷ event_type "transfer.succeeded" "transfer" "P5.G05" "v1" "pillar" "`Transfer`"
    ∷ event_type "transfer.failed" "transfer" "P5.G05" "v1" "pillar" "`Transfer`"
    ∷ event_type "transfer.canceled" "transfer" "P5.G05" "v1" "pillar" "`Transfer`"
    ∷ event_type "request.rate_limit_hit" "request" "P8.K02" "v1" "pillar" "`RequestLog`"
    ∷ event_type "webhook_delivery.failed" "webhook_delivery" "P6.H04" "v1" "pillar"
        "`WebhookDelivery`"
    ∷ event_type "webhook_delivery.succeeded" "webhook_delivery" "P6.H03" "v1" "pillar"
        "`WebhookDelivery`"
    ∷ event_type "template_version.activated" "template_version" "P11.M01" "v1" "pillar"
        "`TemplateVersion`"
    ∷ event_type "search_index.rebuilt" "search_index" "P11.M02" "v1" "pillar" "`SearchIndex`"
    ∷ []

unfoldable pub event_type_registry : List EventType
event_type_registry =
    first_event_types ++ second_event_types ++ third_event_types ++ fourth_event_types
