-- ===== src/Errors.antt =====
-- The sentinel errors of internal/capability, internal/broker, internal/trust, internal/auth and the
-- connectors. An error of the model is what `errors.Is` sees of it: its sentinel, or `other` where
-- there is none; messages and wrapping are left out.
pub data Error : Type 0 where
  -- capability
  invalid_reference expired_reference : Error
  description_budget_invalid description_too_large : Error
  -- broker
  context_mismatch view_mismatch capability_changed policy_denied approval_required : Error
  capability_not_ready mcp_disabled tool_argument_invalid capability_not_callable : Error
  -- trust
  server_untrusted project_untrusted profile_untrusted credential_missing : Error
  -- auth
  login_required scope_required token_exchange discovery_invalid client_registration : Error
  -- connector/stdio and connector/streamhttp
  stdio_schema_changed stdio_server_not_configured stdio_protocol_unsupported : Error
  stdio_tool_result_invalid : Error
  http_schema_changed http_server_not_configured http_tool_result_invalid : Error
  -- hostedauth
  unauthenticated : Error
  other : Error
