-- ===== src/Mesh/Log/Lost.antt =====
-- When the compaction of mesh/store.ts takes the newest event off the log.
use ultra_fabric.Prelude.{
  ◌+◌, ◌-◌, ◌≤◌, ◌<◌, ◌≡◌, refl, ap, ◌∙◌, false, [], ◌∷◌, ◌++◌, ltb, leb, length, length-append,
  drop, arith,
}
use ultra_fabric.Mesh.Log.{MeshEvent, Format, LogFiles}
use ultra_fabric.Mesh.Log.Compaction.{after_newline, retained_bytes, compact_event_log}
use ultra_fabric.Mesh.Log.Cuts.{drop-append, retained_bytes_lem}
use ultra_fabric.Mesh.Log.Events.{IsLine}
use ultra_fabric.Mesh.Log.Publishing.{published, LogConfig, append_event}
use ultra_fabric.LogTail.{Bytes}

module _ {D : Type 0} (format : Format D) (config : LogConfig) where
  after_newline-line : (line : Bytes) → IsLine line → after_newline (line ++ 10 ∷ []) ≡ []
  unfolding after_newline
  after_newline-line [] h = refl
  after_newline-line (b ∷ line) (e, h) = rw e (after_newline-line line h)

  -- An event whose line is one line and not too large, and has with its newline exactly the bytes that
  -- compaction is to retain, fewer than a log may have: the append that makes the log too long leaves an
  -- empty log, without the event that it reports as published.
  pub append_event-loses :
      (e : MeshEvent D) (files : LogFiles)
      → IsLine (format.line_of e)
      → length (format.line_of e) ≤ config.max_event_bytes
      → length (format.line_of e) + 1 ≡ config.limits.retained_event_log_bytes
      → config.limits.retained_event_log_bytes < config.limits.max_event_log_bytes
      → config.limits.max_event_log_bytes
        < length files.events + config.limits.retained_event_log_bytes
      → append_event format config e files ≡ (
        record { events = []; counter = e.sequence; generation = files.generation + 1 },
        published e,
      )
  unfolding append_event compact_event_log
  append_event-loses e files one_line fits exact limits long =
      let newest = format.line_of e ++ 10 ∷ [] in
      let all = files.events ++ newest in
      let size : length all ≡ length files.events + config.limits.retained_event_log_bytes =
        omega
          (arith, length-append files.events newest, length-append (format.line_of e) (10 ∷ [])) in
      let place : length all - config.limits.retained_event_log_bytes ≡ length files.events =
        omega arith in
      let empty : retained_bytes config.limits config.max_event_bytes all ≡ [] =
        retained_bytes_lem config.limits config.max_event_bytes all (omega arith)
        ∙ ap (λ n. after_newline (drop n all)) place
        ∙ ap after_newline (drop-append files.events newest)
        ∙ after_newline-line (format.line_of e) one_line in
      let small : ltb config.max_event_bytes (length (format.line_of e)) ≡ false = ground arith in
      let grown : leb (length all) config.limits.max_event_log_bytes ≡ false = ground arith in
      rw (small, grown, empty) refl
