-- ===== src/Workflow.antt =====
-- workflow.py: stage pipelines with gates.
pub mod Json
pub mod Stage
pub mod Item
pub mod ItemLaws
pub mod Parse
pub mod Ready
pub mod Rework
pub mod Failure
pub mod Gate
mod Tests
