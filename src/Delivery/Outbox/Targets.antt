-- ===== src/Delivery/Outbox/Targets.antt =====
-- packages/delivery/src/file-delivery-store.ts: where an envelope goes, and the scopes that select
-- envelopes.
use maxtag.Base.{
  Bool, ◌&&◌, ◌||◌, Text, text, text_eq, is_truthy, Option, none, some, or_else, if◌then◌else◌,
}
use maxtag.Delivery.Types.{allows}
use maxtag.Delivery.Outbox.Types.{
  pending, sending, OutboundEnvelope, CreateOutboundInput, OutboxScope, outbound_status_eq,
}

-- `first || second || third || fallback`
unfoldable pub first_text : Option Text → Option Text → Option Text → Text → Text
first_text a b c d =
    if is_truthy a
    then or_else a d
    else if is_truthy b
    then or_else b d
    else if is_truthy c
    then or_else c d
    else d

abbrev pub outbound_target_key : OutboundEnvelope → Text
outbound_target_key e =
    first_text e.target.card_id e.target.chat_id e.target.root_id (text "unknown-target")

abbrev pub external_id_of : CreateOutboundInput → Option Text
external_id_of input = elim input.thread [ none ↦ none | some t ↦ some t.external_id ]

abbrev pub target_id_for : CreateOutboundInput → Text
target_id_for input =
    first_text input.target.card_id input.target.chat_id (external_id_of input)
      (text "unknown-target")

unfoldable pub matches_outbox_scope : OutboundEnvelope → OutboxScope → Bool
matches_outbox_scope e scope =
    allows scope.run_id e.run_id
    && allows scope.thread_id e.thread_id
    && allows scope.workspace_id e.workspace_id
    && allows scope.project_id e.project_id
    && allows scope.kind (some e.kind)
    && allows scope.target_id (some (outbound_target_key e))

unfoldable pub has_outbox_scope : OutboxScope → Bool
has_outbox_scope scope =
    is_truthy scope.run_id
    || is_truthy scope.thread_id
    || is_truthy scope.workspace_id
    || is_truthy scope.project_id
    || is_truthy scope.target_id
    || is_truthy scope.kind

abbrev pub is_open : OutboundEnvelope → Bool
is_open e = outbound_status_eq e.status pending || outbound_status_eq e.status sending

abbrev pub with_id : Text → OutboundEnvelope → Bool
with_id id e = text_eq e.id id

abbrev pub thread_id_of : CreateOutboundInput → Option Text
thread_id_of input = elim input.thread [ none ↦ none | some t ↦ some t.id ]

abbrev pub workspace_id_of : CreateOutboundInput → Option Text
workspace_id_of input = elim input.thread [ none ↦ none | some t ↦ t.workspace_id ]

abbrev pub project_id_of : CreateOutboundInput → Option Text
project_id_of input = elim input.thread [ none ↦ none | some t ↦ t.project_id ]
