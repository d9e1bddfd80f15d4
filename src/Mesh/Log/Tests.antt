-- ===== src/Mesh/Log/Tests.antt =====
-- The event log of mesh/store.ts at concrete inputs. An event's line is one number here.
use ultra_fabric.Prelude.{
  ℕ, ◌+◌, ◌-◌, ◌≡◌, refl, Option, none, some, List, [], ◌∷◌, ◌++◌, arith, take, filter,
}
use ultra_fabric.Mesh.State.{Identity, main}
use ultra_fabric.Mesh.Keys.{valid_topic}
use ultra_fabric.Mesh.Cursor.{log_limits}
use ultra_fabric.Mesh.Log.{MeshEvent, Format, LogFiles}
use ultra_fabric.Mesh.Log.Events.{log_events, lines_events, line_events}
use ultra_fabric.Mesh.Log.Lines.{concat, read_events_after-eq-take}
use ultra_fabric.Mesh.Log.Lost.{append_event-loses}
use ultra_fabric.Mesh.Log.Order.{IsJson, IsOrdered, repaired, next_event, publish-IsOrdered}
use ultra_fabric.Mesh.Log.Publishing.{
  Publish, published, LogConfig, publish, publish_locked, append_event, event_of, latest_sequence,
  read_last_event_sequence, last_sequence, kind_of,
}
use ultra_fabric.Mesh.Log.Compaction.{
  repair_event_log, last_newline, compact_event_log, retained_bytes, after_newline,
}
use ultra_fabric.Mesh.Log.Reading.{read_events_after, is_wanted}
use ultra_fabric.Mesh.Log.Recovery.{cut_off-IsOrdered}
use ultra_fabric.Mesh.Log.Seen.{every_event_after, publish-read_events_after}
use ultra_fabric.LogTail.{Bytes, pieces_of, strip_return}

abbrev sender : Identity
sender = record { id = "a"; name = "a"; kind = main; session_id = none }

abbrev event : ℕ → MeshEvent (Unit {0})
event sequence = record {
  id = "fresh";
  sequence = sequence;
  topic = "jobs";
  kind = "message";
  from = sender;
  to = none;
  text = none;
  payload = none;
  created_at = 5;
}

abbrev parse_number : Bytes → Option (MeshEvent (Unit {0}))
parse_number [] = none
parse_number (b ∷ []) = some (event (b - 20))
parse_number (b ∷ c ∷ line) = none

abbrev format : Format (Unit {0})
format = record {
  line_of = λ e. (e.sequence + 20) ∷ [];
  identity_text = λ i. i.id;
  payload_text = λ p. "";
  parse = parse_number;
  trim_bytes = λ bytes. bytes;
}

abbrev config : LogConfig
config = record {
  max_event_bytes = 4;
  max_read_events = 10;
  limits = record { max_event_log_bytes = 8; retained_event_log_bytes = 5 };
}

limits_of_config : log_limits 4 (some 8) (some 5) ≡ config.limits
unfolding log_limits
limits_of_config = refl

abbrev two_events : LogFiles
two_events = record { events = 21 ∷ 10 ∷ 22 ∷ 10 ∷ []; counter = 2; generation = 0 }

-- The third append was cut off.
abbrev cut_off : LogFiles
cut_off = record two_events { events = two_events.events ++ 23 ∷ [] }

abbrev message : Publish (Unit {0})
message = record {
  id = none;
  topic = "jobs";
  kind = none;
  from = sender;
  to = none;
  text = none;
  payload = none;
}

abbrev three_events : LogFiles
three_events = record { events = 21 ∷ 10 ∷ 22 ∷ 10 ∷ 23 ∷ 10 ∷ []; counter = 3; generation = 0 }

published_third :
    publish format config "fresh" 5 message cut_off ≡ (three_events, published (event 3))
unfolding publish publish_locked append_event event_of latest_sequence read_last_event_sequence
    last_sequence kind_of repair_event_log last_newline compact_event_log retained_bytes
    after_newline pieces_of valid_topic
published_third = refl

two_events-IsOrdered : IsOrdered format config two_events
unfolding latest_sequence read_last_event_sequence last_sequence pieces_of lines_events line_events
    strip_return
two_events-IsOrdered = record { ends = refl; rises = omega arith }

repaired-cut_off : repaired config cut_off ≡ two_events
unfolding repair_event_log last_newline
repaired-cut_off = refl

found_in_order : IsOrdered format config (repaired config cut_off)
found_in_order = rw repaired-cut_off two_events-IsOrdered

third_event : next_event format config "fresh" 5 message cut_off ≡ event 3
unfolding event_of latest_sequence read_last_event_sequence last_sequence kind_of repair_event_log
    last_newline pieces_of
third_event = refl

event-IsJson : IsJson format (event 3)
unfolding strip_return
event-IsJson = record {
  one_line = (refl, tt);
  some_byte = omega arith;
  no_return = refl;
  reads_back = refl;
}

third-IsJson : IsJson format (next_event format config "fresh" 5 message cut_off)
third-IsJson = rw third_event event-IsJson

-- The second chunk starts in the middle of a line, and the last line has no newline.
abbrev three_chunks : List Bytes
three_chunks = (21 ∷ 10 ∷ 22 ∷ []) ∷ (10 ∷ []) ∷ (23 ∷ []) ∷ []

read_example :
    let q = every_event_after format config 1 10 in
    read_events_after q three_chunks
    ≡ take 10 (filter (is_wanted q) (log_events format 4 (concat three_chunks)))
read_example =
    read_events_after-eq-take (every_event_after format config 1 10) three_chunks tt (omega arith)

publish_order_example :
    IsOrdered format config (repaired config (publish format config "fresh" 5 message cut_off).0)
publish_order_example =
    publish-IsOrdered format config "fresh" 5 message cut_off third-IsJson (omega arith)
      found_in_order

cut_off_example :
    let found = repaired config (record two_events { events = two_events.events ++ 23 ∷ [] }) in
    (found ≡ two_events) × IsOrdered format config found
cut_off_example =
    cut_off-IsOrdered format config two_events (23 ∷ []) two_events-IsOrdered (refl, tt)
      (omega arith)

publish_read_example :
    let q =
      every_event_after format config
        (latest_sequence format config.max_event_bytes (repaired config cut_off))
        10 in
    read_events_after q (three_events.events ∷ []) ≡ event 3 ∷ []
publish_read_example =
    publish-read_events_after format config "fresh" 5 message cut_off three_events (event 3) 10
      (three_events.events ∷ []) event-IsJson (omega arith) found_in_order refl published_third
      (omega arith) (omega arith) tt refl

-- Here an event may have four bytes, and four bytes and a newline are what is retained.
abbrev wide_format : Format (Unit {0})
wide_format = record format { line_of = λ e. 7 ∷ 7 ∷ 7 ∷ (e.sequence + 20) ∷ [] }

loses_example :
    append_event wide_format config (event 3) two_events
    ≡ (record { events = []; counter = 3; generation = 1 }, published (event 3))
loses_example =
    append_event-loses wide_format config (event 3) two_events (refl, (refl, (refl, (refl, tt))))
      (omega arith) refl (omega arith) (omega arith)
