-- ===== src/Agent/Tools.antt =====
-- The tool registry and the authorization of tool calls: src/mtbank_ai/agent_runtime/tools.py and
-- src/mtbank_ai/agent_runtime/authorization.py.
mod Registry
mod Authorizer
pub mod Calls
pub mod Authorized
pub use Authorizer.{is_terminal_submit}
pub use Registry.{
  ToolSpec, ValidatedToolCall, ToolOutput, ExecutedToolCall, HandlerOutcome, produced,
  invalid_output, handler_timed_out, handler_failed, handler_crashed,
}
unfoldable pub use Registry.{
  new_registry, require_tool, with_arguments, validate_call, validate_each, validate_ids,
  validate_calls, execute,
}
unfoldable pub use Authorizer.{terminal_positions, check_calls, authorize}
