-- ===== src/Consult.antt =====
-- consult/policy.ts and consult/reducer.ts: which consultations are admitted, and how the results of their
-- workers are reduced to one. The resolver of evidence is a parameter.
pub mod Values
pub mod Request
pub mod Policy
pub mod Reduce
pub mod Perspectives
pub mod Result
pub mod Coverage
pub mod Grounds
mod Tests
