-- ===== src/Carry.antt =====
-- runtime/carry-store.ts: the state that sessions carry from one run to the next, for a bounded number
-- of sessions. A value is of any type, and whether its JSON text is short enough is a parameter.
pub mod Recency
mod Tests
use ultra_fabric.Prelude.{
  drop_first, ℕ, String, Bool, true, false, ◌||◌, not, Option, none, some, List, [], ◌∷◌, ◌++◌, max,
  ltb, leb, ◌==◌, string_equality, if◌then◌else◌, is_some, length, Dict, lookup, insert, remove,
}

pub record CarryStore (V : Type 0) : Type 0 where
  pub sessions : Dict (Dict V)
  pub recency : List String
  pub max_sessions : ℕ

abbrev pub is_blank {ℓ} : {A : Type ℓ} → List A → Bool
is_blank [] = true
is_blank (x ∷ xs) = false

module _ {V : Type 0} where
  abbrev pub new_store : ℕ → CarryStore V
  new_store max_sessions = record { sessions = []; recency = []; max_sessions = max 1 max_sessions }

  abbrev pub or_blank : Option (Dict V) → Dict V
  or_blank none = []
  or_blank (some carry) = carry

  unfoldable pub snapshot_carry : CarryStore V → String → Dict V
  snapshot_carry s id = or_blank (lookup id s.sessions)

  -- The loop that deletes the oldest sessions.
  unfoldable pub evict : ℕ → List String → Dict (Dict V) → List String × Dict (Dict V)
  evict most [] sessions = ([], sessions)
  evict most (id ∷ ids) sessions =
      let rest = evict most ids (remove id sessions) in
      if ltb most (length (id ∷ ids)) then rest else (id ∷ ids, sessions)

  -- The order of the ids when a session is the newest.
  unfoldable pub renewed : CarryStore V → String → List String
  renewed s id =
      (if is_some (lookup id s.sessions) then drop_first id s.recency else s.recency) ++ id ∷ []

  unfoldable pub persist : (Dict V → Bool) → String → Option (Dict V) → CarryStore V → CarryStore V
  persist within_cap id none s = s
  persist within_cap id (some carry) s =
      if is_blank carry || not (within_cap carry)
      then s
      else let kept = evict s.max_sessions (renewed s id) s.sessions in
        record s { recency = kept.0; sessions = insert id carry kept.1 }

  abbrev pub clear : CarryStore V → CarryStore V
  clear s = record s { sessions = []; recency = [] }
