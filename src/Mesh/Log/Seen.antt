-- ===== src/Mesh/Log/Seen.antt =====
-- What a reader sees of an event that `publish` of mesh/store.ts has written, and when it sees nothing.
use mathlib.Core.List.{append_cancel_right}
use ultra_fabric.Prelude.{
  String, ℕ, ◌+◌, ◌≤◌, ◌<◌, ◌≡◌, ◌≢◌, refl, sym, ap, ◌∙◌, inl, inr, true, none, List, [], ◌∷◌, ◌++◌,
  append_assoc, if_true, if_false, lt→ltb, ltb, leb, length, length-append, take, take-all, filter,
  filter-append, arith, Bool-cases, subst,
}
use ultra_fabric.Mesh.Log.{MeshEvent, Format, LogFiles}
use ultra_fabric.Mesh.Log.Compaction.{retained_bytes, compact_event_log, ends_line}
use ultra_fabric.Mesh.Log.Cuts.{Kept, IsCut, retained_bytes-Kept, compact_event_log-IsCut, unsnoc}
use ultra_fabric.Mesh.Log.Lines.{AllRead, concat, read_events_after-eq-take}
use ultra_fabric.Mesh.Log.Order.{
  IsJson, Ascends-cut, IsOrdered, repaired, appended, compacted, events_in, events_in-snoc,
  publish_cases,
}
use ultra_fabric.Mesh.Log.Publishing.{
  Publish, Published, published, refused, PublishError, LogConfig, latest_sequence, event_of,
  append_event, existing_event, publish_locked, publish,
}
use ultra_fabric.Mesh.Log.Reading.{Query, is_wanted, event_matches, read_events_after}
use ultra_fabric.Mesh.Log.Rising.{Ascends, Ascends-bounds}
use ultra_fabric.LogTail.{Bytes}

IsCut-cancel :
    (events kept newest : Bytes)
    → 0 < length newest
    → IsCut (events ++ newest) (kept ++ newest)
    → IsCut events kept
IsCut-cancel events kept newest h (inl e) = inl (append_cancel_right kept events newest e)
IsCut-cancel events kept newest h (inr (inl e)) =
    absurd (omega (arith, ap length e, length-append kept newest))
IsCut-cancel events kept newest h (inr (inr (before, e))) = inr (
    inr (
      before,
      append_cancel_right events (before ++ 10 ∷ kept) newest
          (e ∙ sym (append_assoc before (10 ∷ kept) newest)),
    ))

retained-Kept :
    (config : LogConfig) (events newest : Bytes)
    → ends_line events ≡ true
    → config.limits.retained_event_log_bytes < length (events ++ newest)
    → length newest < config.limits.retained_event_log_bytes
    → Kept (retained_bytes config.limits config.max_event_bytes (events ++ newest)) newest
retained-Kept config [] newest e h k = absurd (omega arith)
retained-Kept config (b ∷ events) newest e h k =
    let (before, cut) = unsnoc b events e in
    let all : (b ∷ events) ++ newest ≡ before ++ 10 ∷ newest =
      ap (λ l. l ++ newest) cut ∙ append_assoc before (10 ∷ []) newest in
    subst (λ l. Kept (retained_bytes config.limits config.max_event_bytes l) newest) (sym all)
      (retained_bytes-Kept config.limits config.max_event_bytes before newest (rw (← all) h) k)

compacted-Kept :
    (config : LogConfig) (files longer : LogFiles) (newest : Bytes)
    → longer.events ≡ files.events ++ newest
    → config.limits.retained_event_log_bytes < config.limits.max_event_log_bytes
    → ends_line files.events ≡ true
    → length newest < config.limits.retained_event_log_bytes
    → Kept (compacted config longer).events newest
unfolding compact_event_log
compacted-Kept config files longer newest e limits h k =
    elim (Bool-cases (leb (length longer.events) config.limits.max_event_log_bytes)) [
      | inl short ↦ rw short (record { older = files.events; whole = e; ends = h })
      | inr long ↦ rw long (
          rw e (
            retained-Kept config files.events newest h
              (let size = ap length e in ground (arith, size)) k))
    ]

-- A reader of every event after a sequence.
abbrev pub every_event_after : {D : Type 0} → Format D → LogConfig → ℕ → ℕ → Query D
every_event_after format config after limit = record {
  format = format;
  max_event_bytes = config.max_event_bytes;
  after = after;
  wanted = record { topic = none; to = none };
  limit = limit;
}

published_inj : {D : Type 0} {e e' : MeshEvent D} → published e ≡ published e' → e ≡ e'
published_inj h = cc

refused-ne-published :
    {D : Type 0} {f f' : LogFiles} {r : PublishError} {e : MeshEvent D}
    → ◌≢◌ {A = LogFiles × Published D} (f, refused r) (f', published e)
refused-ne-published h = ground arith

module _ {D : Type 0} (format : Format D) (config : LogConfig) where
  is_wanted-every_event :
      (after limit : ℕ) (e : MeshEvent D)
      → is_wanted (every_event_after format config after limit) e ≡ ltb after e.sequence
  unfolding is_wanted event_matches
  is_wanted-every_event after limit e = ground arith

  filter-Ascends :
      (after limit low high : ℕ) (events : List (MeshEvent D))
      → high ≤ after
      → Ascends low events high
      → filter (is_wanted (every_event_after format config after limit)) events ≡ []
  filter-Ascends after limit low high [] h a = refl
  filter-Ascends after limit low high (e ∷ events) h (l, a) =
      let bound = Ascends-bounds e.sequence high events a in
      if_false _ _ _ (is_wanted-every_event after limit e ∙ ground (arith, bound))
      ∙ filter-Ascends after limit e.sequence high events h a

  filter-newest :
      (after limit : ℕ) (e : MeshEvent D)
      → after < e.sequence
      → filter (is_wanted (every_event_after format config after limit)) (e ∷ []) ≡ e ∷ []
  filter-newest after limit e h =
      if_true _ _ _ (is_wanted-every_event after limit e ∙ lt→ltb after e.sequence h)

  -- The old events that a compaction leaves are in order still.
  kept_events :
      (e : MeshEvent D) (files : LogFiles)
      → IsJson format e
      → config.limits.retained_event_log_bytes < config.limits.max_event_log_bytes
      → length (format.line_of e) ≤ config.max_event_bytes
      → length (format.line_of e) + 1 < config.limits.retained_event_log_bytes
      → IsOrdered format config files
      → (older : List (MeshEvent D)) × (events_in format config
            (compacted config (appended format e files)).events
          ≡ older ++ e ∷ [])
        × Ascends 0 older (latest_sequence format config.max_event_bytes files)
  kept_events e files json limits fits short v =
      let newest = format.line_of e ++ 10 ∷ [] in
      let longer = appended format e files in
      let size = length-append (format.line_of e) (10 ∷ []) in
      let k = compacted-Kept config files longer newest refl limits v.ends (omega (arith, size)) in
      let cut = IsCut-cancel files.events k.older newest (omega (arith, size)) (
        subst (IsCut longer.events) k.whole
          (compact_event_log-IsCut config.limits config.max_event_bytes longer limits)) in
      (
        events_in format config k.older,
        ap (events_in format config) k.whole
            ∙ events_in-snoc format config k.older e json k.ends fits,
        Ascends-cut format config files.events k.older _ cut v.rises,
      )

  read_newest :
      (e : MeshEvent D) (files : LogFiles) (limit : ℕ) (chunks : List Bytes)
      → IsJson format e
      → config.limits.retained_event_log_bytes < config.limits.max_event_log_bytes
      → length (format.line_of e) ≤ config.max_event_bytes
      → length (format.line_of e) + 1 < config.limits.retained_event_log_bytes
      → IsOrdered format config files
      → latest_sequence format config.max_event_bytes files < e.sequence
      → 0 < limit
      → AllRead chunks
      → concat chunks ≡ (compacted config (appended format e files)).events
      → let q =
          every_event_after format config
            (latest_sequence format config.max_event_bytes files)
            limit in
        read_events_after q chunks ≡ e ∷ []
  read_newest e files limit chunks json limits fits short v new pos all same =
      let after = latest_sequence format config.max_event_bytes files in
      let q = every_event_after format config after limit in
      let (older, whole, rises) = kept_events e files json limits fits short v in
      let wanted : filter (is_wanted q) (events_in format config (concat chunks)) ≡ e ∷ [] =
        ap (λ bytes. filter (is_wanted q) (events_in format config bytes)) same
        ∙ ap (filter (is_wanted q)) whole
        ∙ filter-append (is_wanted q) older (e ∷ [])
        ∙ rw
            (
              filter-Ascends after limit 0 after older (omega arith) rises,
              filter-newest after limit e new,
            )
            refl in
      read_events_after-eq-take q chunks all pos
      ∙ ap (take limit) wanted
      ∙ take-all limit (e ∷ []) (omega arith)

  -- What an append that is accepted has done.
  record Written (files files' : LogFiles) (e : MeshEvent D) : Type 0 where
    fits : length (format.line_of e) ≤ config.max_event_bytes
    grown : files' ≡ compacted config (appended format e files)
    next : latest_sequence format config.max_event_bytes files < e.sequence

  append_event-Written :
      (e e' : MeshEvent D) (files files' : LogFiles)
      → latest_sequence format config.max_event_bytes files < e.sequence
      → append_event format config e files ≡ (files', published e')
      → Written files files' e'
  unfolding append_event
  append_event-Written e e' files files' h run =
      elim (Bool-cases (ltb config.max_event_bytes (length (format.line_of e)))) [
        | inl large ↦ absurd (refused-ne-published (rw large at run))
        | inr fits ↦
            let fits_lem : length (format.line_of e) ≤ config.max_event_bytes = ground arith in
            let done : (compacted config (appended format e files), published e)
                ≡ (files', published e') =
              rw fits at run in
            let same : e ≡ e' = published_inj (ap (λ (r : LogFiles × Published D). r.1) done) in
            subst (Written files files') same (record {
              fits = fits_lem;
              grown = sym (ap (λ (r : LogFiles × Published D). r.0) done);
              next = h;
            })
      ]

  -- A publish that finds no event with its id appends.
  append_first :
      (fresh_id : String) (now : ℕ) (input : Publish D) (files : LogFiles)
      → existing_event format config input.id (repaired config files).events ≡ none
      → append_event format config
          (event_of format fresh_id now
            (latest_sequence format config.max_event_bytes (repaired config files) + 1)
            input)
          (repaired config files)
        ≡ publish_locked format config fresh_id now input files
  unfolding publish_locked
  append_first fresh_id now input files new = rw (publish_locked, new) refl

  publish-Written :
      (fresh_id : String) (now : ℕ) (input : Publish D) (files files' : LogFiles) (e : MeshEvent D)
      → existing_event format config input.id (repaired config files).events ≡ none
      → publish format config fresh_id now input files ≡ (files', published e)
      → Written (repaired config files) files' e
  publish-Written fresh_id now input files files' e new run =
      elim (publish_cases format config fresh_id now input files) [
        | inl (error, same) ↦ absurd (refused-ne-published (sym same ∙ run))
        | inr locked ↦
            let sequence =
              latest_sequence format config.max_event_bytes (repaired config files) + 1 in
            append_event-Written (event_of format fresh_id now sequence input) e
              (repaired config files) files' (unfold event_of in omega arith)
              (append_first fresh_id now input files new ∙ sym locked ∙ run)
      ]

  -- A reader whose cursor is the latest sequence that the repaired log had before gets the new event
  -- and nothing else, however the log is cut into reads: if the log was in order, no event was
  -- found that has the id, the event's line is one line that reads as that event, this line with its
  -- newline is shorter than what compaction retains, and fewer bytes are retained than a log may have.
  pub publish-read_events_after :
      (fresh_id : String) (now : ℕ) (input : Publish D) (files files' : LogFiles) (e : MeshEvent D)
      (limit : ℕ) (chunks : List Bytes)
      → IsJson format e
      → config.limits.retained_event_log_bytes < config.limits.max_event_log_bytes
      → IsOrdered format config (repaired config files)
      → existing_event format config input.id (repaired config files).events ≡ none
      → publish format config fresh_id now input files ≡ (files', published e)
      → length (format.line_of e) + 1 < config.limits.retained_event_log_bytes
      → 0 < limit
      → AllRead chunks
      → concat chunks ≡ files'.events
      → let q =
          every_event_after format config
            (latest_sequence format config.max_event_bytes (repaired config files))
            limit in
        read_events_after q chunks ≡ e ∷ []
  publish-read_events_after fresh_id now input files files' e limit chunks json limits v new run
        short pos all same =
      let w = publish-Written fresh_id now input files files' e new run in
      read_newest e (repaired config files) limit chunks json limits w.fits short v w.next pos all
        (same ∙ ap (λ (f : LogFiles). f.events) w.grown)
