-- ===== src/Mesh/Log/Order.antt =====
-- The order of the events that `publish` of mesh/store.ts writes, and what a reader sees of a new one.
use ultra_fabric.Prelude.{
  String, ℕ, ◌+◌, ◌≤◌, ◌<◌, ◌≡◌, refl, sym, ap, ◌∙◌, ◌⊎◌, inl, inr, true, not, ◌&&◌, some, List, [],
  ◌∷◌, ◌++◌, append-nil, append_assoc, ltb, leb, nat_equality, length, arith, Bool-cases,
  Option-cases, subst,
}
use ultra_fabric.Mesh.Keys.{valid_topic}
use ultra_fabric.Mesh.Log.{MeshEvent, Format, LogFiles}
use ultra_fabric.Mesh.Log.Compaction.{compact_event_log, ends_line, repair_event_log}
use ultra_fabric.Mesh.Log.Cuts.{
  ends_line-snoc, ends_line-IsWhole, IsCut, IsCut-ends_line, compact_event_log-IsCut,
}
use ultra_fabric.Mesh.Log.Events.{
  append_newline-IsWhole, IsLine, line_events, no_bytes, log_events, log_events-append,
  log_events-line,
}
use ultra_fabric.Mesh.Log.Publishing.{
  Publish, refused, PublishError, invalid_topic, invalid_id, empty_recipient, LogConfig,
  latest_sequence, event_of, append_event, existing_event, publish_locked, publish, valid_event_id,
  valid_recipient,
}
use ultra_fabric.Mesh.Log.Rising.{Ascends, Ascends-weaken, Ascends-suffix, Ascends-snoc}
use ultra_fabric.LogTail.{Bytes, strip_return}

-- What JSON promises of an event's line: it has a byte, no newline and no carriage return at its end,
-- and reads as that event.
pub record IsJson {D : Type 0} (format : Format D) (e : MeshEvent D) : Type 0 where
  pub one_line : IsLine (format.line_of e)
  pub some_byte : 0 < length (format.line_of e)
  pub no_return : strip_return (format.line_of e) ≡ format.line_of e
  pub reads_back : format.parse (format.line_of e) ≡ some e

abbrev pub repaired : LogConfig → LogFiles → LogFiles
repaired config files = record files {
  events = repair_event_log config.max_event_bytes files.events;
}

abbrev pub compacted : LogConfig → LogFiles → LogFiles
compacted config files = compact_event_log config.limits config.max_event_bytes files

abbrev pub appended : {D : Type 0} → Format D → MeshEvent D → LogFiles → LogFiles
appended format e files = record files {
  events = files.events ++ (format.line_of e ++ 10 ∷ []);
  counter = e.sequence;
}

module _ {D : Type 0} (format : Format D) (config : LogConfig) where
  abbrev pub events_in : Bytes → List (MeshEvent D)
  events_in bytes = log_events format config.max_event_bytes bytes

  -- The log ends a line, and its sequences rise up to the latest one.
  pub record IsOrdered (files : LogFiles) : Type 0 where
    pub ends : ends_line files.events ≡ true
    pub rises :
        Ascends 0 (events_in files.events) (latest_sequence format config.max_event_bytes files)

module _ {D : Type 0} (format : Format D) (config : LogConfig) where
  line_events_lem :
      (e : MeshEvent D)
      → IsJson format e
      → length (format.line_of e) ≤ config.max_event_bytes
      → line_events format config.max_event_bytes (format.line_of e) ≡ e ∷ []
  unfolding line_events
  line_events_lem e json h =
      let filled : (ltb 0 (length (format.line_of e))
            && leb (length (format.line_of e)) config.max_event_bytes)
          ≡ true =
        ground (arith, json.some_byte) in
      rw (filled, json.no_return, json.reads_back) refl

  -- A log that ends a line, and one event more.
  pub events_in-snoc :
      (older : Bytes) (e : MeshEvent D)
      → IsJson format e
      → ends_line older ≡ true
      → length (format.line_of e) ≤ config.max_event_bytes
      → events_in format config (older ++ (format.line_of e ++ 10 ∷ []))
        ≡ events_in format config older ++ e ∷ []
  events_in-snoc older e json h k =
      log_events-append format config.max_event_bytes older (format.line_of e ++ 10 ∷ [])
        (ends_line-IsWhole older h)
      ∙ ap (λ es. events_in format config older ++ es)
          (log_events-line format config.max_event_bytes (format.line_of e) json.one_line
            ∙ line_events_lem e json k)

  -- A cut only takes events off the old end.
  events_in-IsCut :
      (events kept : Bytes)
      → IsCut events kept
      → (gone : List (MeshEvent D)) × (events_in format config events
          ≡ gone ++ events_in format config kept)
  events_in-IsCut events kept (inl e) = ([], rw e refl)
  events_in-IsCut events kept (inr (inl e)) = (
    events_in format config events,
    rw (e, no_bytes format config.max_event_bytes) (sym (append-nil _)),
  )
  events_in-IsCut events kept (inr (inr (before, e))) = (
    events_in format config (before ++ 10 ∷ []),
    ap (events_in format config) (e ∙ sym (append_assoc before (10 ∷ []) kept))
        ∙ log_events-append format config.max_event_bytes (before ++ 10 ∷ []) kept
            (append_newline-IsWhole before),
  )

  pub Ascends-cut :
      (events kept : Bytes) (high : ℕ)
      → IsCut events kept
      → Ascends 0 (events_in format config events) high
      → Ascends 0 (events_in format config kept) high
  Ascends-cut events kept high cut a =
      let (gone, e) = events_in-IsCut events kept cut in
      Ascends-suffix 0 high gone (events_in format config kept)
        (subst (λ es. Ascends 0 es high) e a)

  counter-le-latest :
      (files : LogFiles) → files.counter ≤ latest_sequence format config.max_event_bytes files
  unfolding latest_sequence
  counter-le-latest files = omega arith

  counter-compacted : (files : LogFiles) → (compacted config files).counter ≡ files.counter
  unfolding compact_event_log
  counter-compacted files = ground arith

  compacted-IsOrdered :
      (e : MeshEvent D) (files : LogFiles)
      → IsJson format e
      → config.limits.retained_event_log_bytes < config.limits.max_event_log_bytes
      → length (format.line_of e) ≤ config.max_event_bytes
      → latest_sequence format config.max_event_bytes files < e.sequence
      → IsOrdered format config files
      → IsOrdered format config (compacted config (appended format e files))
  compacted-IsOrdered e files json limits fits h v =
      let longer = appended format e files in
      let cut = compact_event_log-IsCut config.limits config.max_event_bytes longer limits in
      let grown : Ascends 0 (events_in format config longer.events) e.sequence =
        rw (events_in-snoc files.events e json v.ends fits)
          (Ascends-snoc 0 _ (events_in format config files.events) e v.rises h) in
      let ended : ends_line longer.events ≡ true =
        ap ends_line (sym (append_assoc files.events (format.line_of e) (10 ∷ [])))
        ∙ ends_line-snoc (files.events ++ format.line_of e) in
      let kept = (compacted config longer).events in
      record {
        ends = IsCut-ends_line longer.events kept cut ended;
        rises =
            Ascends-weaken 0 0 e.sequence _ (events_in format config kept) (omega arith)
              (omega (arith, counter-compacted longer, counter-le-latest (compacted config longer)))
              (Ascends-cut longer.events kept e.sequence cut grown);
      }

  append_event-IsOrdered :
      (e : MeshEvent D) (files : LogFiles)
      → IsJson format e
      → config.limits.retained_event_log_bytes < config.limits.max_event_log_bytes
      → latest_sequence format config.max_event_bytes files < e.sequence
      → IsOrdered format config files
      → IsOrdered format config (append_event format config e files).0
  unfolding append_event
  append_event-IsOrdered e files json limits h v =
      elim (Bool-cases (ltb config.max_event_bytes (length (format.line_of e)))) [
        | inl large ↦ rw large v
        | inr fits ↦ rw fits (compacted-IsOrdered e files json limits (ground arith) h v)
      ]

  -- The event of a publish that appends one.
  abbrev pub next_event : String → ℕ → Publish D → LogFiles → MeshEvent D
  next_event fresh_id now input files =
      event_of format fresh_id now
        (latest_sequence format config.max_event_bytes (repaired config files) + 1) input

  publish_locked-IsOrdered :
      (fresh_id : String) (now : ℕ) (input : Publish D) (files : LogFiles)
      → IsJson format (next_event fresh_id now input files)
      → config.limits.retained_event_log_bytes < config.limits.max_event_log_bytes
      → IsOrdered format config (repaired config files)
      → IsOrdered format config (publish_locked format config fresh_id now input files).0
  unfolding publish_locked
  publish_locked-IsOrdered fresh_id now input files json limits v =
      elim (Option-cases (existing_event format config input.id (repaired config files).events)) [
        | inl e ↦
            rw (publish_locked, e)
              (append_event-IsOrdered (next_event fresh_id now input files) (repaired config files)
                json limits (unfold event_of in omega arith) v)
        | inr (found, e) ↦ rw (publish_locked, e) v
      ]

  repaired-IsOrdered :
      (files : LogFiles)
      → IsOrdered format config files
      → IsOrdered format config (repaired config files)
  unfolding repair_event_log
  repaired-IsOrdered files v = rw v.ends v

  pub publish_cases :
      (fresh_id : String) (now : ℕ) (input : Publish D) (files : LogFiles)
      → ((e : PublishError) × (publish format config fresh_id now input files ≡ (files, refused e)))
        ⊎ (publish format config fresh_id now input files
            ≡ publish_locked format config fresh_id now input files)
  unfolding publish
  publish_cases fresh_id now input files = elim (Bool-cases (not (valid_topic input.topic))) [
    | inl e ↦ rw e (inl (invalid_topic, refl))
    | inr e ↦ elim (Bool-cases (not (valid_event_id input.id))) [
      | inl e' ↦ rw (e, e') (inl (invalid_id, refl))
      | inr e' ↦ elim (Bool-cases (not (valid_recipient input.to))) [
        | inl e'' ↦ rw (e, e', e'') (inl (empty_recipient, refl))
        | inr e'' ↦ rw (e, e', e'') (inr refl)
      ]
    ]
  ]

  -- The state that a call finds may end with an event that was not written to its end. If the
  -- repaired log ends a line and the sequences of its events rise strictly, up to the latest one that
  -- the store knows, this is so after a publish, accepted or not: when fewer bytes are retained than a
  -- log may have, and the line of the next event is one line that reads as that event.
  pub publish-IsOrdered :
      (fresh_id : String) (now : ℕ) (input : Publish D) (files : LogFiles)
      → IsJson format (next_event fresh_id now input files)
      → config.limits.retained_event_log_bytes < config.limits.max_event_log_bytes
      → IsOrdered format config (repaired config files)
      → IsOrdered format config (repaired config (publish format config fresh_id now input files).0)
  publish-IsOrdered fresh_id now input files json limits v =
      elim (publish_cases fresh_id now input files) [
        | inl (error, same) ↦ rw same v
        | inr locked ↦
            rw locked (
              repaired-IsOrdered _
                (publish_locked-IsOrdered fresh_id now input files json limits v))
      ]
