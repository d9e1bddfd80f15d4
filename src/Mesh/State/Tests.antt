-- ===== src/Mesh/State/Tests.antt =====
-- Runs of mesh/store.ts at concrete calls.
use ultra_fabric.Prelude.{
  ℕ, ◌+◌, ◌≤◌, ◌≡◌, refl, ◌≢◌, String, none, some, List, [], ◌∷◌, arith, lookup, insert, remove,
  includes,
}
use ultra_fabric.Mesh.Keys.{valid_key}
use ultra_fabric.Mesh.State.{
  Entry, StateFile, Put, Limits, Identity, main, ok, err, swap_failed, empty, is_inherited,
  actual_version, put_entry, put_state, put, delete_state, delete, get, compact_tombstones, collect,
  without,
}
use ultra_fabric.Mesh.State.Swap.{get-put, put_lost_race}
use ultra_fabric.Mesh.State.History.{Call, puts, deletes, step, run, run-IsWellFormed}
use ultra_fabric.Mesh.State.Atomic.{delete_remembers, put_after_delete}
use ultra_fabric.Mesh.State.Versions.{IsWellFormed}

abbrev limits : Limits ℕ
limits = record {
  max_event_bytes = 100;
  max_state_bytes = 1_000;
  max_state_tombstones = 1;
  value_bytes = λ v. v;
  state_bytes = λ s. 10;
}

abbrev me : Identity
me = record { id = "main"; name = "Main"; kind = main; session_id = none }

abbrev write : ℕ → Put ℕ
write v = record { key = "k"; value = v; identity = me; if_version = some 0 }

abbrev written : Entry ℕ
written = record { key = "k"; value = 7; version = 1; updated_at = 5; updated_by = me }

abbrev one_entry : StateFile ℕ
one_entry = record { entries = ("k", written) ∷ []; versions = ("k", 1) ∷ []; tombstone_order = [] }

abbrev one_tombstone : StateFile ℕ
one_tombstone = record { entries = []; versions = ("k", 1) ∷ []; tombstone_order = "k" ∷ [] }

first_put : put limits empty (write 7) 5 ≡ ok (written, one_entry)
unfolding put put_entry put_state actual_version empty valid_key compact_tombstones collect insert
    lookup without includes
first_put = refl

first_delete : delete limits one_entry "k" (some 1) ≡ ok (some 1, one_tombstone)
unfolding delete delete_state actual_version valid_key compact_tombstones insert remove lookup
    without includes is_inherited
first_delete = refl

one_entry-IsWellFormed : IsWellFormed limits one_entry
unfolding run step put put_entry put_state actual_version empty valid_key compact_tombstones collect
    insert lookup without includes
one_entry-IsWellFormed = run-IsWellFormed limits (puts (write 7) 5 ∷ [])

get-put_example :
    (written.value ≡ 7)
    × (written.version ≡ actual_version {V = ℕ} empty "k" + 1)
    × (get limits one_entry "k" ≡ ok (some written))
    × ((k : String) → k ≢ "k" → get limits one_entry k ≡ get limits empty k)
get-put_example = get-put limits empty one_entry (write 7) 5 written first_put

put_lost_race_example :
    put limits one_entry (write 9) 6
    ≡ err (swap_failed (actual_version {V = ℕ} empty "k") (actual_version {V = ℕ} empty "k" + 1))
put_lost_race_example =
    put_lost_race limits empty one_entry (write 7) (write 9) 5 6 written first_put refl
      (unfold actual_version empty lookup in refl) (omega arith)

abbrev history : List (Call ℕ)
history = puts (write 7) 5 ∷ deletes "k" (some 1) ∷ []

run-IsWellFormed_example : IsWellFormed limits (run limits empty history)
run-IsWellFormed_example = run-IsWellFormed limits history

delete_remembers_example :
    (lookup "k" one_tombstone.entries ≡ none)
    × ((k : String) → k ≢ "k" → lookup k one_tombstone.entries ≡ lookup k one_entry.entries)
    × ((i : Put ℕ) (now m : ℕ)
        → i.key ≡ "k"
        → i.if_version ≡ some m
        → m ≢ 1
        → limits.value_bytes i.value ≤ limits.max_event_bytes
        → put limits one_tombstone i now ≡ err (swap_failed m 1))
    × ((i : Put ℕ) (now : ℕ) (e : Entry ℕ) (u : StateFile ℕ)
        → i.key ≡ "k"
        → put limits one_tombstone i now ≡ ok (e, u)
        → e.version ≡ 2)
delete_remembers_example =
    delete_remembers limits one_entry one_tombstone "k" (some 1) 1 one_entry-IsWellFormed
      (omega arith) first_delete

abbrev rewrite_k : Put ℕ
rewrite_k = record { key = "k"; value = 8; identity = me; if_version = some 1 }

abbrev rewritten : Entry ℕ
rewritten = record { key = "k"; value = 8; version = 2; updated_at = 9; updated_by = me }

put_after_delete_example :
    (lookup "k" one_tombstone.entries ≡ none)
    × (put limits one_tombstone rewrite_k 9
        ≡ ok (rewritten, put_state limits one_tombstone rewritten))
    × (lookup "k" (put_state limits one_tombstone rewritten).entries ≡ some rewritten)
unfolding put_entry actual_version lookup
put_after_delete_example =
    put_after_delete limits one_entry one_tombstone rewrite_k 9 1 one_entry-IsWellFormed
      (omega arith) first_delete refl (omega arith) (omega arith)
