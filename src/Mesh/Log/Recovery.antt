-- ===== src/Mesh/Log/Recovery.antt =====
-- What `#repairEventLog` of mesh/store.ts makes of an append that was cut off.
use ultra_fabric.Prelude.{
  ℕ, zero, suc, ◌+◌, ◌-◌, ◌≤◌, ◌≡◌, refl, sym, ap, ◌∙◌, true, false, none, some, [], ◌∷◌, ◌++◌,
  append-nil, append_assoc, if_false, nat_equality, length, length-append, length-drop, take, drop,
  min, arith,
}
use ultra_fabric.Mesh.Log.{Format, LogFiles}
use ultra_fabric.Mesh.Log.Compaction.{ends_line, last_newline, truncated, repair_event_log}
use ultra_fabric.Mesh.Log.Cuts.{take_prefix, drop_before, unsnoc, ends_line-append}
use ultra_fabric.Mesh.Log.Events.{IsLine}
use ultra_fabric.Mesh.Log.Order.{IsOrdered, repaired}
use ultra_fabric.Mesh.Log.Publishing.{LogConfig}
use ultra_fabric.LogTail.{Bytes}

last_newline-line : (line : Bytes) → IsLine line → last_newline line ≡ none
unfolding last_newline
last_newline-line [] h = refl
last_newline-line (b ∷ line) (e, h) = rw (last_newline-line line h, e) refl

last_newline-append :
    (before line : Bytes) → IsLine line → last_newline (before ++ 10 ∷ line) ≡ some (length before)
unfolding last_newline
last_newline-append [] line h = rw (last_newline-line line h) refl
last_newline-append (b ∷ before) line h =
    rw (last_newline-append before line h) (ap some (omega arith))

drop-IsLine : (n : ℕ) (line : Bytes) → IsLine line → IsLine (drop n line)
drop-IsLine zero line h = h
drop-IsLine (suc n) [] h = tt
drop-IsLine (suc n) (b ∷ line) (e, h) = drop-IsLine n line h

ends_line-line : (b : ℕ) (line : Bytes) → IsLine (b ∷ line) → ends_line (b ∷ line) ≡ false
ends_line-line b [] (e, h) = e
ends_line-line b (c ∷ line) (e, h) = ends_line-line c line h

-- What `repair_event_log` makes of a log that does not end a line.
abbrev cut_line : ℕ → Bytes → Bytes
cut_line n all =
    let k = length all - min (length all) (n + 1) in truncated all k (last_newline (drop k all))

cut_line-append :
    (n : ℕ) (before line : Bytes)
    → IsLine line
    → length line ≤ n
    → cut_line n (before ++ 10 ∷ line) ≡ before ++ 10 ∷ []
cut_line-append n before line h fits =
    let all = before ++ 10 ∷ line in
    let k = length all - min (length all) (n + 1) in
    let early : k ≤ length before = omega (arith, length-append before (10 ∷ line)) in
    let found : last_newline (drop k all) ≡ some (length (drop k before)) =
      ap last_newline (drop_before k before (10 ∷ line) early)
      ∙ last_newline-append (drop k before) line h in
    let place : k + length (drop k before) + 1 ≡ length (before ++ 10 ∷ []) =
      omega (arith, length-drop k before, length-append before (10 ∷ [])) in
    ap (truncated all k) found
    ∙ ap (take (k + length (drop k before) + 1)) (sym (append_assoc before (10 ∷ []) line))
    ∙ take_prefix _ (before ++ 10 ∷ []) line place

cut_line-line :
    (n b : ℕ) (events line : Bytes)
    → ends_line events ≡ true
    → IsLine (b ∷ line)
    → length (b ∷ line) ≤ n
    → cut_line n (events ++ b ∷ line) ≡ events
cut_line-line n b [] line e h fits =
    rw (last_newline-line (drop _ (b ∷ line)) (drop-IsLine _ (b ∷ line) h)) refl
cut_line-line n b (x ∷ events) line e h fits =
    let (before, cut) = unsnoc x events e in
    ap (cut_line n) (ap (λ l. l ++ b ∷ line) cut ∙ append_assoc before (10 ∷ []) (b ∷ line))
    ∙ cut_line-append n before (b ∷ line) h fits
    ∙ sym cut

-- An append that is cut off before its newline is undone by the next repair.
repair_event_log-append :
    (n : ℕ) (events line : Bytes)
    → ends_line events ≡ true
    → IsLine line
    → length line ≤ n
    → repair_event_log n (events ++ line) ≡ events
unfolding repair_event_log
repair_event_log-append n events [] e h fits = rw (append-nil events, e) refl
repair_event_log-append n events (b ∷ line) e h fits =
    let partial : ends_line (events ++ b ∷ line) ≡ false =
      ends_line-append events b line ∙ ends_line-line b line h in
    if_false _ (events ++ b ∷ line) _ partial ∙ cut_line-line n b events line e h fits

-- After an append to a log that ends a line was cut off, whatever part of a line, of at most the bytes
-- of an event, was left at its end, the repair gives the log back as it was, which is in order if it
-- was so.
pub cut_off-IsOrdered :
    {D : Type 0} (format : Format D) (config : LogConfig) (files : LogFiles) (line : Bytes)
    → IsOrdered format config files
    → IsLine line
    → length line ≤ config.max_event_bytes
    → let found = repaired config (record files { events = files.events ++ line }) in
      (found ≡ files) × IsOrdered format config found
cut_off-IsOrdered format config files line v h fits =
    let same = repair_event_log-append config.max_event_bytes files.events line v.ends h fits in
    (rw same refl, rw same v)
