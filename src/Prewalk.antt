-- ===== src/Prewalk.antt =====
-- prewalk/: a planner writes a checklist, and a cheaper model executes it in the same session.
pub mod Plan
pub mod Lifecycle
