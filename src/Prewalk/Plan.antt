-- ===== src/Prewalk/Plan.antt =====
-- The data of an accepted checklist (prewalk/checklist.ts).
use ultra_fabric.Prelude.{ℕ, String, Bool, Option, List}

pub record SchemaReference : Type 0 where
  pub repository : String
  pub question : String
  pub evidence_refs : List String

pub record SchemaLocalScope : Type 0 where
  pub files : List String
  pub symbols : List String
  pub cascade_refs : List String

pub record SchemaContract : Type 0 where
  pub intent : String
  pub references : List SchemaReference
  pub local_scope : SchemaLocalScope
  pub invariants : List String
  pub postconditions : List String

pub record ChecklistItem : Type 0 where
  pub task : String
  pub validation : String

pub record Checklist : Type 0 where
  pub items : List ChecklistItem
  pub ready_at : ℕ
  pub done_indexes : Option (List ℕ)
  pub trivial : Option Bool
  pub schema : Option SchemaContract
