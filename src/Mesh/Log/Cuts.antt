-- ===== src/Mesh/Log/Cuts.antt =====
-- Where repair and compaction of mesh/store.ts cut the event log.
use ultra_fabric.Prelude.{
  ℕ, zero, suc, ◌+◌, ◌-◌, ◌≤◌, ◌<◌, ◌≡◌, refl, sym, ap, ◌∙◌, ◌⊎◌, inl, inr, true, false, Option,
  none, some, [], ◌∷◌, ◌++◌, append_assoc, if_false, leb, ◌==◌, nat_equality, nat_beq, nat_beq_iff,
  length, length-drop, length-append, subst, take, take-append, drop, min, arith, Bool-cases,
  Option-cases,
}
use ultra_fabric.Mesh.Cursor.{LogLimits}
use ultra_fabric.Mesh.Log.{LogFiles}
use ultra_fabric.Mesh.Log.Compaction.{
  after_newline, retained_bytes, compact_event_log, last_newline, ends_line, truncated,
  repair_event_log,
}
use ultra_fabric.Mesh.Log.Events.{IsWhole, append_newline-IsWhole}
use ultra_fabric.LogTail.{Bytes}

take-drop : (n : ℕ) (xs : Bytes) → take n xs ++ drop n xs ≡ xs
take-drop zero xs = refl
take-drop (suc n) [] = refl
take-drop (suc n) (x ∷ xs) = ap (λ l. x ∷ l) (take-drop n xs)

-- The bytes before a newline that is found.
pub record Found (bytes : Bytes) (newline : ℕ) : Type 0 where
  pub before : Bytes
  pub later : Bytes
  pub whole : bytes ≡ before ++ 10 ∷ later
  pub place : length before ≡ newline

shift_Found : {b : ℕ} {bytes : Bytes} {i j : ℕ} → Found bytes i → i + 1 ≡ j → Found (b ∷ bytes) j
shift_Found {b} f e = record {
  before = b ∷ f.before;
  later = f.later;
  whole = ap (λ l. b ∷ l) f.whole;
  place = omega (arith, f.place);
}

here_Found : {b : ℕ} {bytes : Bytes} {i : ℕ} → (b == 10) ≡ true → 0 ≡ i → Found (b ∷ bytes) i
here_Found {b} {bytes} e z = record { before = []; later = bytes; whole = ground arith; place = z }

last_newline-Found : (bytes : Bytes) {i : ℕ} → last_newline bytes ≡ some i → Found bytes i
unfolding last_newline
last_newline-Found [] h = absurd (ground arith)
last_newline-Found (b ∷ bytes) {i} h = elim (Option-cases (last_newline bytes)) [
  | inl e ↦ elim (Bool-cases (b == 10)) [
    | inl t ↦ here_Found t (ground arith)
    | inr f ↦ absurd (ground arith)
  ]
  | inr (j, e) ↦ shift_Found (last_newline-Found bytes e) (ground arith)
]

pub ends_line-snoc : (bytes : Bytes) → ends_line (bytes ++ 10 ∷ []) ≡ true
ends_line-snoc [] = refl
ends_line-snoc (b ∷ []) = refl
ends_line-snoc (b ∷ c ∷ bytes) = ends_line-snoc (c ∷ bytes)

pub ends_line-append :
    (xs : Bytes) (b : ℕ) (bytes : Bytes) → ends_line (xs ++ b ∷ bytes) ≡ ends_line (b ∷ bytes)
ends_line-append [] b bytes = refl
ends_line-append (x ∷ []) b bytes = refl
ends_line-append (x ∷ y ∷ xs) b bytes = ends_line-append (y ∷ xs) b bytes

pub unsnoc :
    (b : ℕ) (bytes : Bytes)
    → ends_line (b ∷ bytes) ≡ true
    → (before : Bytes) × (b ∷ bytes ≡ before ++ 10 ∷ [])
unsnoc b [] h = ([], ground arith)
unsnoc b (c ∷ bytes) h = let (before, e) = unsnoc c bytes h in (b ∷ before, ap (λ l. b ∷ l) e)

-- A log that ends a line.
pub ends_line-IsWhole : (bytes : Bytes) → ends_line bytes ≡ true → IsWhole bytes
ends_line-IsWhole [] h = inl refl
ends_line-IsWhole (b ∷ bytes) h =
    let (before, e) = unsnoc b bytes h in subst IsWhole (sym e) (append_newline-IsWhole before)

pub take_prefix : (n : ℕ) (xs ys : Bytes) → n ≡ length xs → take n (xs ++ ys) ≡ xs
take_prefix n xs ys e = rw e (take-append xs ys)

length-take : (n : ℕ) (xs : Bytes) → n ≤ length xs → length (take n xs) ≡ n
length-take zero xs h = refl
length-take (suc n) [] h = absurd (omega arith)
length-take (suc n) (x ∷ xs) h = omega (arith, length-take n xs (omega arith))

truncated_lem :
    (events pre tail : Bytes) (k : ℕ) {i : ℕ}
    → events ≡ pre ++ tail
    → k ≡ length pre
    → (f : Found tail i) → truncated events k (some i) ≡ (pre ++ f.before) ++ 10 ∷ []
truncated_lem events pre tail k {i} e kk f =
    rw
      (
        e,
        kk,
        f.whole,
        ← append_assoc pre f.before (10 ∷ f.later),
        ← append_assoc (pre ++ f.before) (10 ∷ []) f.later,
      )
      (take_prefix (length pre + i + 1) ((pre ++ f.before) ++ 10 ∷ []) f.later (
        omega
          (arith, f.place, length-append pre f.before, length-append (pre ++ f.before) (10 ∷ []))))

truncated-ends_line :
    (k : ℕ) (events : Bytes) (o : Option ℕ)
    → k ≤ length events
    → last_newline (drop k events) ≡ o
    → ends_line (truncated events k o) ≡ true
truncated-ends_line k events none h e = refl
truncated-ends_line k events (some i) h e =
    let f = last_newline-Found (drop k events) e in
    rw
      (truncated_lem events (take k events) (drop k events) k (sym (take-drop k events))
        (sym (length-take k events h)) f)
      (ends_line-snoc (take k events ++ f.before))

-- A repaired log ends a line.
pub repair_event_log-ends_line :
    (n : ℕ) (events : Bytes) → ends_line (repair_event_log n events) ≡ true
unfolding repair_event_log
repair_event_log-ends_line n events = elim (Bool-cases (ends_line events)) [
  | inl e ↦ rw e e
  | inr e ↦ rw e (
      truncated-ends_line (length events - min (length events) (n + 1)) events _ (omega arith) refl)
]

after_newline_cut :
    (bytes : Bytes)
    → (after_newline bytes ≡ []) ⊎ ((before : Bytes) × (bytes ≡ before ++ 10 ∷ after_newline bytes))
unfolding after_newline
after_newline_cut [] = inl refl
after_newline_cut (b ∷ bytes) = elim (Bool-cases (b == 10)) [
  | inl e ↦ inr ([], rw e (ap (λ (x : ℕ). x ∷ bytes) ((nat_beq_iff b 10).0 e)))
  | inr e ↦ elim (after_newline_cut bytes) [
    | inl none_left ↦ inl (rw e none_left)
    | inr (before, cut) ↦ inr (b ∷ before, rw e (ap (λ l. b ∷ l) cut))
  ]
]

drop_nil : (n : ℕ) → ◌≡◌ {A = Bytes} (drop n []) []
drop_nil zero = refl
drop_nil (suc n) = refl

drop-drop : (m n k : ℕ) (xs : Bytes) → k ≡ n + m → drop m (drop n xs) ≡ drop k xs
drop-drop m zero k xs e = let e' : k ≡ m = omega arith in rw e' refl
drop-drop m (suc n) k [] e = drop_nil m ∙ sym (drop_nil k)
drop-drop m (suc n) k (x ∷ xs) e =
    let e' : k ≡ suc (n + m) = omega arith in rw e' (drop-drop m n (n + m) xs refl)

-- Compaction keeps what follows the first newline of the last bytes.
pub retained_bytes_lem :
    (limits : LogLimits) (n : ℕ) (events : Bytes)
    → limits.retained_event_log_bytes < length events
    → retained_bytes limits n events
      ≡ after_newline (drop (length events - limits.retained_event_log_bytes) events)
unfolding retained_bytes
retained_bytes_lem limits n events h =
    let r = limits.retained_event_log_bytes in
    let k = length events - min (length events) (r + n + 1) in
    let captured = drop k events in
    let long : length captured ≡ length events - k = length-drop k events in
    let some_left : nat_beq (length captured - r) 0 ≡ false = ground (arith, long) in
    let place : length events - r ≡ k + (length captured - r) = omega (arith, long) in
    if_false _ captured _ some_left
    ∙ ap after_newline (drop-drop (length captured - r) k _ events place)

-- What a log keeps starts a line of it.
abbrev pub IsCut : Bytes → Bytes → Type 0
IsCut events kept =
    (kept ≡ events) ⊎ (kept ≡ []) ⊎ ((before : Bytes) × (events ≡ before ++ 10 ∷ kept))

pub retained_bytes-IsCut :
    (limits : LogLimits) (n : ℕ) (events : Bytes)
    → limits.retained_event_log_bytes < length events
    → IsCut events (retained_bytes limits n events)
retained_bytes-IsCut limits n events h =
    let k = length events - limits.retained_event_log_bytes in
    rw (retained_bytes_lem limits n events h) elim (after_newline_cut (drop k events)) [
      | inl none_left ↦ inr (inl none_left)
      | inr (before, cut) ↦ inr (
          inr (
            take k events ++ before,
            sym (take-drop k events)
                ∙ ap (λ l. take k events ++ l) cut
                ∙ sym (append_assoc (take k events) before _),
          ))
    ]

pub compact_event_log-IsCut :
    (limits : LogLimits) (n : ℕ) (files : LogFiles)
    → limits.retained_event_log_bytes < limits.max_event_log_bytes
    → IsCut files.events (compact_event_log limits n files).events
unfolding compact_event_log
compact_event_log-IsCut limits n files h =
    elim (Bool-cases (leb (length files.events) limits.max_event_log_bytes)) [
      | inl e ↦ rw e (inl refl)
      | inr e ↦ rw e (retained_bytes-IsCut limits n files.events (ground arith))
    ]

pub IsCut-ends_line :
    (events kept : Bytes) → IsCut events kept → ends_line events ≡ true → ends_line kept ≡ true
IsCut-ends_line events kept (inl e) h = rw e h
IsCut-ends_line events kept (inr (inl e)) h = rw e refl
IsCut-ends_line events [] (inr (inr (before, e))) h = refl
IsCut-ends_line events (b ∷ kept) (inr (inr (before, e))) h =
    sym (ends_line-append (before ++ 10 ∷ []) b kept)
    ∙ ap ends_line (append_assoc before (10 ∷ []) (b ∷ kept) ∙ sym e)
    ∙ h

pub drop-append : (xs ys : Bytes) → drop (length xs) (xs ++ ys) ≡ ys
drop-append [] ys = refl
drop-append (x ∷ xs) ys = drop-append xs ys

pub drop_before : (n : ℕ) (xs ys : Bytes) → n ≤ length xs → drop n (xs ++ ys) ≡ drop n xs ++ ys
drop_before zero xs ys h = refl
drop_before (suc n) [] ys h = absurd (omega arith)
drop_before (suc n) (x ∷ xs) ys h = drop_before n xs ys (omega arith)

-- What is kept before the bytes of the last line ends a line itself.
pub record Kept (kept newest : Bytes) : Type 0 where
  pub older : Bytes
  pub whole : kept ≡ older ++ newest
  pub ends : ends_line older ≡ true

after_newline-Kept : (bytes newest : Bytes) → Kept (after_newline (bytes ++ 10 ∷ newest)) newest
unfolding after_newline
after_newline-Kept [] newest = record { older = []; whole = refl; ends = refl }
after_newline-Kept (b ∷ bytes) newest = elim (Bool-cases (b == 10)) [
  | inl e ↦ record {
    older = bytes ++ 10 ∷ [];
    whole = rw e (sym (append_assoc bytes (10 ∷ []) newest));
    ends = ends_line-snoc bytes;
  }
  | inr e ↦ rw e (after_newline-Kept bytes newest)
]

-- The last line stays, if it is shorter than what is kept.
pub retained_bytes-Kept :
    (limits : LogLimits) (n : ℕ) (before newest : Bytes)
    → limits.retained_event_log_bytes < length (before ++ 10 ∷ newest)
    → length newest < limits.retained_event_log_bytes
    → Kept (retained_bytes limits n (before ++ 10 ∷ newest)) newest
retained_bytes-Kept limits n before newest h k =
    let all = before ++ 10 ∷ newest in
    let m = length all - limits.retained_event_log_bytes in
    let early : m ≤ length before = omega (arith, length-append before (10 ∷ newest)) in
    rw (retained_bytes_lem limits n all h, drop_before m before (10 ∷ newest) early)
      (after_newline-Kept (drop m before) newest)
