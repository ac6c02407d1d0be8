-- ===== src/Tests.antt =====
-- Runs of the operations at concrete inputs.
pub mod World
mod StoreRuns
mod MessageRuns
mod ServerRuns
mod SenderRuns
mod AnswerRuns
mod IdentityRuns
mod ClientRuns
mod MainRuns
mod SchemaRuns
mod WakeRuns
