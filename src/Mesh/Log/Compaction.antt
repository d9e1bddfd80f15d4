-- ===== src/Mesh/Log/Compaction.antt =====
-- `#compactEventLog` and `#repairEventLog` of mesh/store.ts.
use ultra_fabric.Prelude.{
  ℕ, ◌+◌, ◌-◌, Bool, true, Option, none, some, [], ◌∷◌, min, leb, ◌==◌, nat_equality, if◌then◌else◌,
  length, take, drop,
}
use ultra_fabric.Mesh.Cursor.{LogLimits}
use ultra_fabric.Mesh.Log.{LogFiles}
use ultra_fabric.LogTail.{Bytes}

-- The last bytes of a file, as many as it has at most.
abbrev pub tail_of : ℕ → Bytes → Bytes
tail_of n bytes = drop (length bytes - min (length bytes) n) bytes

-- The bytes after the first newline; none where there is no newline.
unfoldable pub after_newline : Bytes → Bytes
after_newline [] = []
after_newline (b ∷ bytes) = if b == 10 then bytes else after_newline bytes

-- What compaction keeps of a log that is longer than its limit.
unfoldable pub retained_bytes : LogLimits → ℕ → Bytes → Bytes
retained_bytes limits max_event_bytes events =
    let captured = tail_of (limits.retained_event_log_bytes + max_event_bytes + 1) events in
    let boundary = length captured - limits.retained_event_log_bytes in
    if boundary == 0 then captured else after_newline (drop boundary captured)

unfoldable pub compact_event_log : LogLimits → ℕ → LogFiles → LogFiles
compact_event_log limits max_event_bytes files =
    if leb (length files.events) limits.max_event_log_bytes then files else record files {
      events = retained_bytes limits max_event_bytes files.events;
      generation = files.generation + 1;
    }

-- `lastIndexOf(0x0a)`.
unfoldable pub last_newline : Bytes → Option ℕ
last_newline [] = none
last_newline (b ∷ bytes) = elim (last_newline bytes) [
  | none ↦ if b == 10 then some 0 else none
  | some i ↦ some (i + 1)
]

abbrev pub ends_line : Bytes → Bool
ends_line [] = true
ends_line (b ∷ []) = b == 10
ends_line (b ∷ c ∷ bytes) = ends_line (c ∷ bytes)

abbrev pub truncated : Bytes → ℕ → Option ℕ → Bytes
truncated events tail_start none = []
truncated events tail_start (some newline) = take (tail_start + newline + 1) events

-- An event that was not written to its end is taken off the log.
unfoldable pub repair_event_log : ℕ → Bytes → Bytes
unfolding last_newline
repair_event_log max_event_bytes events =
    if ends_line events
    then events
    else truncated events (length events - min (length events) (max_event_bytes + 1))
        (last_newline (tail_of (max_event_bytes + 1) events))
