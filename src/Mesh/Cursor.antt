-- ===== src/Mesh/Cursor.antt =====
-- The cursors of mesh/store.ts: a generation of the event log and an offset in it, in one number.
mod Tests
use ultra_fabric.Prelude.{
  ℕ, ◌+◌, ◌-◌, ◌*◌, ◌/◌, ◌%◌, ◌≤◌, ◌<◌, ◌≡◌, refl, Bool, Option, none, some, min, max, ltb,
  if◌then◌else◌, arith, or_default,
}

abbrev pub cursor_offset_base : ℕ
cursor_offset_base = 4_294_967_296

abbrev pub max_safe_cursor : ℕ
max_safe_cursor = 9_007_199_254_740_991

-- `#encodeCursor`; `none` is the exception.
pub encode_cursor : ℕ → ℕ → Option ℕ
encode_cursor generation offset =
    let cursor = generation * cursor_offset_base + offset in
    if ltb max_safe_cursor cursor then none else some cursor

-- `#decodeCursor` of a cursor that is no natural number or is not safe has the generation -1.
pub decode_cursor : ℕ → Option (ℕ × ℕ)
decode_cursor cursor =
    if ltb max_safe_cursor cursor
    then none
    else some (cursor / cursor_offset_base, cursor % cursor_offset_base)

-- The byte limits of the event log that the constructor sets, from the floors of the options.
pub record LogLimits : Type 0 where
  pub max_event_log_bytes : ℕ
  pub retained_event_log_bytes : ℕ

unfoldable pub log_limits : ℕ → Option ℕ → Option ℕ → LogLimits
log_limits max_event_bytes max_log retained =
    let bytes =
      min (cursor_offset_base - 1) (max (max_event_bytes + 2) (or_default max_log 67_108_864)) in
    record {
      max_event_log_bytes = bytes;
      retained_event_log_bytes =
          min (bytes - 1) (max (max_event_bytes + 1) (or_default retained 16_777_216));
    }

-- A cursor that is given out for an offset in a log within its limit is read back as that
-- generation and offset, whatever limits are configured.
pub decode-encode :
    (max_event_bytes : ℕ) (max_log retained : Option ℕ) (generation offset cursor : ℕ)
    → offset ≤ (log_limits max_event_bytes max_log retained).max_event_log_bytes
    → encode_cursor generation offset ≡ some cursor
    → decode_cursor cursor ≡ some (generation, offset)
unfolding encode_cursor decode_cursor log_limits
decode-encode m l r generation offset cursor h e =
    let small : offset < cursor_offset_base = omega arith in
    let same : cursor ≡ generation * cursor_offset_base + offset = ground arith in
    let high : cursor / cursor_offset_base ≡ generation = omega arith in
    let low : cursor % cursor_offset_base ≡ offset = omega arith in ground arith

-- Whatever is configured, what compaction retains is less than what sets it off.
retained-lt-max :
    (max_event_bytes : ℕ) (max_log retained : Option ℕ)
    → let limits = log_limits max_event_bytes max_log retained in
      limits.retained_event_log_bytes < limits.max_event_log_bytes
unfolding log_limits
retained-lt-max m l r = omega arith
