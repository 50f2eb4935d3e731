-- ===== src/Application/Mechanism/RollbackPreflight.antt =====
-- src/application/mechanism.rs: `RollbackPreflightError`.
use deploy_mcp.Prelude.{String, List}
use deploy_mcp.Ports.{RemoteExecutionError}

pub data RollbackPreflightError : Type 0 where
  mechanism_mismatch : RollbackPreflightError
  target_check capability_discovery : RemoteExecutionError → RollbackPreflightError
  target_unreachable : String → RollbackPreflightError
  missing_capabilities : String → List String → RollbackPreflightError
