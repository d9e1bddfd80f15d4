-- ===== src/Mesh/State.antt =====
-- The shared state of mesh/store.ts: entries with versions, and the versions of deleted keys. A call
-- holds the lock, so it is one step. The JSON values are of any type; the sizes of their texts and of
-- the file are parameters.
pub mod Tombstones
pub mod Versions
pub mod Swap
pub mod History
pub mod Atomic
mod Tests
use ultra_fabric.Prelude.{
  ℕ, suc, ◌+◌, ◌-◌, String, Bool, true, false, ◌&&◌, ◌||◌, not, Option, none, some, List, [], ◌∷◌,
  ◌++◌, ltb, ◌==◌, nat_equality, string_equality, if◌then◌else◌, is_some, or_default, length, drop,
  filter, Dict, lookup, insert, remove, keys, includes,
}
use ultra_fabric.Mesh.Keys.{valid_key}

pub data IdentityKind : Type 0 where
  main persistent_agent agent : IdentityKind

pub record Identity : Type 0 where
  pub id : String
  pub name : String
  pub kind : IdentityKind
  pub session_id : Option String

pub record Entry (V : Type 0) : Type 0 where
  pub key : String
  pub value : V
  pub version : ℕ
  pub updated_at : ℕ
  pub updated_by : Identity

-- `MeshStateFile`; a file without `versions` or `tombstoneOrder` is read as one where they are empty.
pub record StateFile (V : Type 0) : Type 0 where
  pub entries : Dict (Entry V)
  pub versions : Dict ℕ
  pub tombstone_order : List String

pub data Error : Type 0 where
  invalid_key : Error
  value_too_large : Error
  swap_failed : (expected found : ℕ) → Error
  state_too_large : Error

pub data Result {ℓ} (A : Type ℓ) : Type ℓ where
  ok : A → Result A
  err : Error → Result A

-- The last `n` entries, `xs.slice(-n)` for `n` above 0.
abbrev pub take_last {ℓ} : {A : Type ℓ} → ℕ → List A → List A
take_last n xs = drop (length xs - n) xs

-- The names that every object inherits, by which `entries[key]` finds a function or an object.
abbrev inherited_names : List String
inherited_names =
    "constructor" ∷ "hasOwnProperty" ∷ "isPrototypeOf" ∷ "propertyIsEnumerable" ∷ "toLocaleString"
    ∷ "toString" ∷ "valueOf" ∷ "__defineGetter__" ∷ "__defineSetter__" ∷ "__lookupGetter__"
    ∷ "__lookupSetter__" ∷ "__proto__" ∷ []

unfoldable pub is_inherited : String → Bool
is_inherited key = includes key inherited_names

module _ {V : Type 0} where
  unfoldable pub empty : StateFile V
  empty = record { entries = []; versions = []; tombstone_order = [] }

  -- Is `entries[key]` truthy?
  abbrev pub is_live : Dict (Entry V) → String → Bool
  is_live entries key = is_some (lookup key entries) || is_inherited key

  -- Has the key a version and no entry?
  abbrev pub is_tombstone : Dict (Entry V) → Dict ℕ → String → Bool
  is_tombstone entries versions key = is_some (lookup key versions) && not (is_live entries key)

  -- The two loops that fill `orderedKeys`: `seen` is what it holds so far.
  unfoldable pub collect : Dict (Entry V) → Dict ℕ → List String → List String → List String
  collect entries versions seen [] = seen
  collect entries versions seen (key ∷ rest) =
      collect entries versions
        (if is_tombstone entries versions key && not (includes key seen)
          then seen ++ key ∷ []
          else seen)
        rest

  unfoldable pub ordered_tombstones : StateFile V → List String
  unfolding collect
  ordered_tombstones s =
      collect s.entries s.versions (collect s.entries s.versions [] s.tombstone_order)
        (keys s.versions)

  -- The loop that deletes the versions of keys that are neither live nor retained.
  unfoldable pub retain_versions : Dict (Entry V) → List String → Dict ℕ → Dict ℕ
  retain_versions entries retained [] = []
  retain_versions entries retained ((key, version) ∷ rest) =
      let kept = retain_versions entries retained rest in
      if is_live entries key || includes key retained then (key, version) ∷ kept else kept

  unfoldable pub compact_tombstones : ℕ → StateFile V → StateFile V
  unfolding ordered_tombstones retain_versions
  compact_tombstones max_tombstones s =
      let retained = take_last max_tombstones (ordered_tombstones s) in
      record s {
        versions = retain_versions s.entries retained s.versions;
        tombstone_order = retained;
      }

  entry_version : Option (Entry V) → Option ℕ → ℕ
  entry_version (some e) stored = e.version
  entry_version none stored = or_default stored 0

  unfoldable pub actual_version : StateFile V → String → ℕ
  unfolding entry_version
  actual_version s key = entry_version (lookup key s.entries) (lookup key s.versions)

-- `ifVersion !== undefined && ifVersion !== found`
abbrev pub mismatches : Option ℕ → ℕ → Bool
mismatches none found = false
mismatches (some expected) found = not (expected == found)

abbrev swap_error : Option ℕ → ℕ → Error
swap_error expected found = swap_failed (or_default expected 0) found

unfoldable pub without : String → List String → List String
without key [] = []
without key (k ∷ ks) = let rest = without key ks in if k == key then rest else k ∷ rest

pub record Put (V : Type 0) : Type 0 where
  pub key : String
  pub value : V
  pub identity : Identity
  pub if_version : Option ℕ

-- The limits that the constructor sets, and the sizes of texts.
pub record Limits (V : Type 0) : Type 0 where
  pub max_event_bytes : ℕ
  pub max_state_bytes : ℕ
  pub max_state_tombstones : ℕ
  pub value_bytes : V → ℕ
  pub state_bytes : StateFile V → ℕ

module _ {V : Type 0} (limits : Limits V) where
  unfoldable pub put_entry : StateFile V → Put V → ℕ → Entry V
  put_entry s input now = record {
    key = input.key;
    value = input.value;
    version = actual_version s input.key + 1;
    updated_at = now;
    updated_by = input.identity;
  }

  unfoldable pub put_state : StateFile V → Entry V → StateFile V
  put_state s e = compact_tombstones limits.max_state_tombstones (record {
    entries = insert e.key e s.entries;
    versions = insert e.key e.version s.versions;
    tombstone_order = without e.key s.tombstone_order;
  })

  -- `put`: the entry that is returned, and the state that is written.
  unfoldable pub put : StateFile V → Put V → ℕ → Result (Entry V × StateFile V)
  put s input now =
      if not (valid_key input.key)
      then err invalid_key
      else if ltb limits.max_event_bytes (limits.value_bytes input.value)
      then err value_too_large
      else if mismatches input.if_version (actual_version s input.key)
      then err (swap_error input.if_version (actual_version s input.key))
      else let entry = put_entry s input now in
        let written = put_state s entry in
        if ltb limits.max_state_bytes (limits.state_bytes written)
        then err state_too_large
        else ok (entry, written)

  unfoldable pub delete_state : StateFile V → String → ℕ → StateFile V
  delete_state s key version = compact_tombstones limits.max_state_tombstones (record {
    entries = remove key s.entries;
    versions = insert key version s.versions;
    tombstone_order = without key s.tombstone_order ++ key ∷ [];
  })

  delete_entry :
      StateFile V → String → Option ℕ → Option (Entry V) → Result (Option ℕ × StateFile V)
  delete_entry s key if_version none =
      if mismatches if_version (actual_version s key)
      then err (swap_error if_version (actual_version s key))
      else ok (none, s)
  delete_entry s key if_version (some e) =
      if mismatches if_version e.version
      then err (swap_error if_version e.version)
      else let written = delete_state s key e.version in
        if ltb limits.max_state_bytes (limits.state_bytes written)
        then err state_too_large
        else ok (some e.version, written)

  -- `delete`: the version that was deleted, if there was an entry.
  unfoldable pub delete : StateFile V → String → Option ℕ → Result (Option ℕ × StateFile V)
  unfolding delete_entry
  delete s key if_version =
      if not (valid_key key)
      then err invalid_key
      else delete_entry s key if_version (lookup key s.entries)

  unfoldable pub get : StateFile V → String → Result (Option (Entry V))
  get s key = if not (valid_key key) then err invalid_key else ok (lookup key s.entries)
