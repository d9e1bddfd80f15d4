-- ===== src/Mesh/Log/Publishing.antt =====
-- `publish` and `latestSequence` of mesh/store.ts.
use ultra_fabric.Prelude.{
  ℕ, zero, suc, ◌+◌, String, Bool, true, false, ◌&&◌, not, Option, none, some, List, [], ◌∷◌, ◌++◌,
  max, ltb, leb, ◌==◌, nat_equality, string_equality, if◌then◌else◌, length, non_empty, trim,
  text_length,
}
use ultra_fabric.Mesh.Keys.{valid_topic}
use ultra_fabric.Mesh.State.{Identity}
use ultra_fabric.Mesh.Cursor.{LogLimits}
use ultra_fabric.Mesh.Log.{MeshEvent, Format, LogFiles}
use ultra_fabric.Mesh.Log.Compaction.{tail_of, compact_event_log, repair_event_log}
use ultra_fabric.LogTail.{Bytes, LogLine, pieces_of, read_page}

pub record Publish (D : Type 0) : Type 0 where
  pub id : Option String
  pub topic : String
  pub kind : Option String
  pub from : Identity
  pub to : Option String
  pub text : Option String
  pub payload : Option D

pub data PublishError : Type 0 where
  invalid_topic invalid_id empty_recipient id_collision too_large : PublishError

pub data Published (D : Type 0) : Type 0 where
  published : MeshEvent D → Published D
  refused : PublishError → Published D

-- The options of the store that its log depends on.
pub record LogConfig : Type 0 where
  pub max_event_bytes : ℕ
  pub max_read_events : ℕ
  pub limits : LogLimits

abbrev pub event_read_page_bytes : ℕ
event_read_page_bytes = 4_194_304

abbrev pub max_safe_sequence : ℕ
max_safe_sequence = 9_007_199_254_740_991

abbrev pub same_option : {A : Type 0} → (A → A → Bool) → Option A → Option A → Bool
same_option same none none = true
same_option same none (some b) = false
same_option same (some a) none = false
same_option same (some a) (some b) = same a b

abbrev pub same_string : String → String → Bool
same_string a b = a == b

abbrev pub valid_event_id : Option String → Bool
valid_event_id none = true
valid_event_id (some id) = non_empty (trim id) && leb (text_length id) 256

abbrev pub valid_recipient : Option String → Bool
valid_recipient none = true
valid_recipient (some to) = non_empty (trim to)

abbrev pub or_message : String → String
or_message kind = if non_empty kind then kind else "message"

-- `input.kind?.trim() || "message"`
unfoldable pub kind_of : Option String → String
kind_of none = "message"
kind_of (some kind) = or_message (trim kind)

abbrev pub id_or : Option String → String → String
id_or none fresh = fresh
id_or (some id) fresh = id

module _ {D : Type 0} (format : Format D) where
  abbrev pub with_id : String → Option (MeshEvent D) → Option (MeshEvent D)
  with_id id none = none
  with_id id (some e) = if e.id == id then some e else none

  -- The newest line of a page that is an event with the id.
  unfoldable pub find_in_page : String → List LogLine → Option (MeshEvent D)
  find_in_page id [] = none
  find_in_page id (l ∷ lines) = elim (find_in_page id lines) [
    | none ↦ with_id id (format.parse l.raw)
    | some e ↦ some e
  ]

  -- The loop of `#findEventById` over the pages; `before` falls with each page, so that the size of
  -- the file is enough fuel.
  unfoldable pub find_from : ℕ → LogConfig → String → Bytes → Option ℕ → Option (MeshEvent D)
  find_from zero config id events before = none
  find_from (suc fuel) config id events before =
      let page =
        read_page events config.max_read_events before
          (max (config.max_event_bytes + 1) event_read_page_bytes) in
      elim (find_in_page id page.lines) [
        | some e ↦ some e
        | none ↦ elim page.before [
          | none ↦ none
          | some next ↦
              if same_option (λ (a b : ℕ). a == b) page.before before
              then none
              else find_from fuel config id events (some next)
        ]
      ]

  unfoldable pub find_event_by_id : LogConfig → String → Bytes → Option (MeshEvent D)
  find_event_by_id config id events = find_from (length events + 1) config id events none

  abbrev pub sequence_or : ℕ → Option (MeshEvent D) → ℕ
  sequence_or other none = other
  sequence_or other (some e) = if leb e.sequence max_safe_sequence then e.sequence else other

  abbrev pub parse_filled : Bytes → Option (MeshEvent D)
  parse_filled [] = none
  parse_filled (b ∷ line) = format.parse (b ∷ line)

  -- The sequence of the last line that has one; the argument is what an earlier line has.
  unfoldable pub last_sequence : ℕ → Bytes → List Bytes → ℕ
  last_sequence other line [] = sequence_or other (parse_filled line)
  last_sequence other line (next ∷ later) =
      last_sequence (sequence_or other (parse_filled line)) next later

  unfoldable pub read_last_event_sequence : ℕ → Bytes → ℕ
  read_last_event_sequence max_event_bytes events =
      let pieces = pieces_of (format.trim_bytes (tail_of (max_event_bytes + 1) events)) in
      last_sequence 0 pieces.first pieces.rest

  unfoldable pub latest_sequence : ℕ → LogFiles → ℕ
  latest_sequence max_event_bytes files =
      max files.counter (read_last_event_sequence max_event_bytes files.events)

  abbrev pub same_intent : Publish D → MeshEvent D → Bool
  same_intent input existing =
      existing.topic == input.topic
      && existing.kind == kind_of input.kind
      && format.identity_text existing.from == format.identity_text input.from
      && same_option same_string existing.to input.to
      && same_option same_string existing.text input.text
      && same_option (λ a b. format.payload_text a == format.payload_text b) existing.payload
          input.payload

  unfoldable pub event_of : String → ℕ → ℕ → Publish D → MeshEvent D
  event_of fresh_id now sequence input = record {
    id = id_or input.id fresh_id;
    sequence = sequence;
    topic = input.topic;
    kind = kind_of input.kind;
    from = input.from;
    to = input.to;
    text = input.text;
    payload = input.payload;
    created_at = now;
  }

  -- The end of `publish`, from the call of `JSON.stringify`.
  unfoldable pub append_event : LogConfig → MeshEvent D → LogFiles → LogFiles × Published D
  append_event config e files =
      let line = format.line_of e in
      if ltb config.max_event_bytes (length line)
      then (files, refused too_large)
      else let longer = record files {
        events = files.events ++ (line ++ 10 ∷ []);
        counter = e.sequence;
      } in
        (compact_event_log config.limits config.max_event_bytes longer, published e)

  abbrev pub existing_event : LogConfig → Option String → Bytes → Option (MeshEvent D)
  existing_event config none events = none
  existing_event config (some id) events = find_event_by_id config id events

  abbrev pub answer_existing : Publish D → MeshEvent D → Published D
  answer_existing input e = if same_intent input e then published e else refused id_collision

  -- `publish` under the lock.
  unfoldable pub publish_locked :
      LogConfig → String → ℕ → Publish D → LogFiles → LogFiles × Published D
  publish_locked config fresh_id now input files =
      let repaired = record files {
        events = repair_event_log config.max_event_bytes files.events;
      } in
      elim (existing_event config input.id repaired.events) [
        | some e ↦ (repaired, answer_existing input e)
        | none ↦
            let sequence = latest_sequence config.max_event_bytes repaired + 1 in
            append_event config (event_of fresh_id now sequence input) repaired
      ]

  unfoldable pub publish : LogConfig → String → ℕ → Publish D → LogFiles → LogFiles × Published D
  publish config fresh_id now input files =
      if not (valid_topic input.topic)
      then (files, refused invalid_topic)
      else if not (valid_event_id input.id)
      then (files, refused invalid_id)
      else if not (valid_recipient input.to)
      then (files, refused empty_recipient)
      else publish_locked config fresh_id now input files
