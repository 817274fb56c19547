-- ===== src/Approvals/Operations.antt =====
-- approval_engine.py: the operations as one data type.
use night_recon.Prelude.{Result, String}
use night_recon.Approvals.Records.{ApprovalError}
use night_recon.Approvals.Payload.{Services}
use night_recon.Approvals.History.{Workflow}
use night_recon.Approvals.Workflow.{Delegation, approve, delegate, escalate, reject, revoke}

-- The calls, with the event's identifier, the author, the time and the reason.
pub data Operation : Type 0 where
  approves rejects escalates revokes : String → String → String → String → Operation
  delegates : String → Delegation → String → String → Operation

module _ (services : Services) where
  unfoldable pub perform : Operation → Workflow → Result ApprovalError Workflow
  perform (approves id actor at reason) w = approve services id actor at reason w
  perform (rejects id actor at reason) w = reject services id actor at reason w
  perform (escalates id actor at reason) w = escalate services id actor at reason w
  perform (revokes id actor at reason) w = revoke services id actor at reason w
  perform (delegates id d at reason) w = delegate services id d at reason w
