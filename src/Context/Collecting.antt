-- ===== src/Context/Collecting.antt =====
-- What the first loop of context/qos.ts knows of the results that it has passed.
use ultra_fabric.Prelude.{
  ℕ, zero, suc, ◌+◌, ◌≤◌, ◌<◌, ◌≡◌, ◌≢◌, refl, sym, subst, ◌∙◌, inl, inr, String, Bool, true, false,
  ◌||◌, ◌==◌, nat_equality, Option, none, some, List, [], ◌∷◌, ◌++◌, if_true, if_false, eq_iff,
  eq_refl, string_equality, lookup-insert, ltb, leb, text_length, Dict, lookup, insert, includes,
  arith, Bool-cases,
}
use ultra_fabric.Context.{
  Message, retirable, evidence_bearing, Identified, QosCandidate, Latest, Collected,
  result_identity, collect_results, collect_result, count_protected, add_candidate, is_exact,
}

none-ne-some : {A : Type 0} {x : A} → ◌≢◌ {A = Option A} none (some x)
none-ne-some h = ground arith

pub some_inj : {A : Type 0} {x y : A} → some x ≡ some y → y ≡ x
some_inj h = cc

abbrev pub message_at : {J R : Type 0} → ℕ → List (Message J R) → Option (Message J R)
message_at index [] = none
message_at zero (m ∷ messages) = some m
message_at (suc index) (m ∷ messages) = message_at index messages

module _ {J R : Type 0} (calls : Dict String) (all : List (Message J R)) where
  -- A result that succeeded, at its place in the messages.
  pub record Succeeded (index : ℕ) (result : Identified) : Type 0 where
    pub message : Message J R
    pub place : message_at index all ≡ some message
    pub identified : result_identity calls message ≡ some result
    pub succeeded : message.is_error ≡ false
    pub plain : evidence_bearing message.details ≡ false

  -- A candidate is a result that succeeded, and the newest result with its identity is not older.
  pub record IsCandidate (latest : Dict Latest) (c : QosCandidate) : Type 0 where
    pub known : Succeeded c.index c.identified
    pub listed : includes c.identified.name retirable ≡ true
    pub newest : Latest
    pub found : lookup c.identified.identity latest ≡ some newest
    pub no_older : c.index ≤ newest.index

  abbrev pub AllBefore : ℕ → List QosCandidate → Type 0
  AllBefore index [] = Unit {0}
  AllBefore index (c ∷ candidates) = (c.index < index) × AllBefore index candidates

  abbrev pub AllCandidates : Dict Latest → List QosCandidate → Type 0
  AllCandidates latest [] = Unit {0}
  AllCandidates latest (c ∷ candidates) = IsCandidate latest c × AllCandidates latest candidates

  -- What the source knows as the newest result with an identity is one.
  abbrev pub IsKnown : String → Latest → Type 0
  IsKnown identity l =
      (result : Identified) × Succeeded l.index result
      × (result.identity ≡ identity)
      × (result.id ≡ l.id)

  unfoldable pub AllKnown : Dict Latest → Type 0
  AllKnown latest =
      (identity : String) (l : Latest) → lookup identity latest ≡ some l → IsKnown identity l

  -- What the first loop has collected before an index.
  pub record IsCollected (index : ℕ) (s : Collected) : Type 0 where
    pub candidates : AllCandidates s.latest s.candidates
    pub known : AllKnown s.latest
    pub before : AllBefore index s.candidates

  AllBefore-next :
      (index : ℕ) (cs : List QosCandidate) → AllBefore index cs → AllBefore (index + 1) cs
  AllBefore-next index [] h = tt
  AllBefore-next index (c ∷ cs) (h, hs) = (omega arith, AllBefore-next index cs hs)

  AllBefore-snoc :
      (index : ℕ) (cs : List QosCandidate) (c : QosCandidate)
      → AllBefore index cs
      → c.index ≡ index
      → AllBefore (index + 1) (cs ++ c ∷ [])
  AllBefore-snoc index [] c h e = (omega arith, tt)
  AllBefore-snoc index (x ∷ cs) c (h, hs) e = (omega arith, AllBefore-snoc index cs c hs e)

  IsCandidate-insert :
      (index : ℕ) (key id : String) (latest : Dict Latest) (c : QosCandidate)
      → c.index < index
      → IsCandidate latest c
      → IsCandidate (insert key (record { index = index; id = id }) latest) c
  IsCandidate-insert index key id latest c old h =
      let added =
        lookup-insert key c.identified.identity (record { index = index; id = id }) latest in
      elim (Bool-cases (key == c.identified.identity)) [
        | inl same ↦ record {
          known = h.known;
          listed = h.listed;
          newest = record { index = index; id = id };
          found = added ∙ if_true _ _ _ same;
          no_older = omega arith;
        }
        | inr other ↦ record {
          known = h.known;
          listed = h.listed;
          newest = h.newest;
          found = added ∙ if_false _ _ _ other ∙ h.found;
          no_older = h.no_older;
        }
      ]

  AllCandidates-snoc :
      (index : ℕ) (key id : String) (latest : Dict Latest) (cs : List QosCandidate)
      (c : QosCandidate)
      → AllBefore index cs
      → AllCandidates latest cs
      → IsCandidate (insert key (record { index = index; id = id }) latest) c
      → AllCandidates (insert key (record { index = index; id = id }) latest) (cs ++ c ∷ [])
  AllCandidates-snoc index key id latest [] c b h new = (new, tt)
  AllCandidates-snoc index key id latest (x ∷ cs) c (b, bs) (h, hs) new = (
    IsCandidate-insert index key id latest x b h,
    AllCandidates-snoc index key id latest cs c bs hs new,
  )

  AllKnown-insert :
      (index : ℕ) (result : Identified) (latest : Dict Latest)
      → Succeeded index result
      → AllKnown latest
      → AllKnown (insert result.identity (record { index = index; id = result.id }) latest)
  unfolding AllKnown
  AllKnown-insert index result latest new all identity l h =
      let added =
        lookup-insert result.identity identity (record { index = index; id = result.id }) latest in
      elim (Bool-cases (result.identity == identity)) [
        | inl same ↦
            subst (IsKnown identity) (some_inj (sym h ∙ added ∙ if_true _ _ _ same))
              (result, new, (eq_iff result.identity identity).0 same, refl)
        | inr other ↦ all identity l (sym (sym h ∙ added ∙ if_false _ _ _ other))
      ]

  add_candidate-IsCollected :
      (index chars : ℕ) (result : Identified) (s : Collected)
      → Succeeded index result
      → includes result.name retirable ≡ true
      → IsCollected index s
      → IsCollected (index + 1) (add_candidate index chars result s)
  add_candidate-IsCollected index chars result s new listed v =
      let c : QosCandidate = record { index = index; identified = result; chars = chars } in
      let latest' = insert result.identity (record { index = index; id = result.id }) s.latest in
      let added : IsCandidate latest' c = record {
        known = new;
        listed = listed;
        newest = record { index = index; id = result.id };
        found =
            lookup-insert result.identity result.identity _ s.latest
            ∙ if_true _ _ _ (eq_refl result.identity);
        no_older = omega arith;
      } in
      record {
        candidates =
            AllCandidates-snoc index result.identity result.id s.latest s.candidates c v.before
              v.candidates added;
        known = AllKnown-insert index result s.latest new v.known;
        before = AllBefore-snoc index s.candidates c v.before refl;
      }

  next-IsCollected : (index : ℕ) (s : Collected) → IsCollected index s → IsCollected (index + 1) s
  next-IsCollected index s v = record {
    candidates = v.candidates;
    known = v.known;
    before = AllBefore-next index s.candidates v.before;
  }

  count_protected-IsCollected :
      (index : ℕ) (b : Bool) (s : Collected)
      → IsCollected index s
      → IsCollected index (count_protected b s)
  count_protected-IsCollected index true s v = record {
    candidates = v.candidates;
    known = v.known;
    before = v.before;
  }
  count_protected-IsCollected index false s v = v

  collect_result-IsCollected :
      (boundary minimum index : ℕ) (m : Message J R) (result : Option Identified)
      (body : Option String) (s : Collected)
      → message_at index all ≡ some m
      → result ≡ result_identity calls m
      → IsCollected index s
      → IsCollected (index + 1) (collect_result boundary minimum index m result body s)
  collect_result-IsCollected boundary minimum index m none body s at e v =
      next-IsCollected index s v
  collect_result-IsCollected boundary minimum index m (some result) none s at e v =
      next-IsCollected index s v
  collect_result-IsCollected boundary minimum index m (some result) (some body) s at e v =
      let s' = count_protected (is_exact m result || leb boundary index) s in
      let v' = count_protected-IsCollected index (is_exact m result || leb boundary index) s v in
      elim (Bool-cases (ltb (text_length body) minimum)) [
        | inl short ↦ rw short (next-IsCollected index s v)
        | inr long ↦ elim (Bool-cases (is_exact m result)) [
          | inl exact ↦
              subst (IsCollected (index + 1)) (sym (if_false _ s _ long ∙ if_true _ s' _ exact))
                (next-IsCollected index s' v')
          | inr free ↦
              subst (IsCollected (index + 1)) (sym (if_false _ s _ long ∙ if_false _ s' _ free)) (
                add_candidate-IsCollected index (text_length body) result s'
                  (record {
                    message = m;
                    place = at;
                    identified = sym e;
                    succeeded = ground (arith, free);
                    plain = ground (arith, free);
                  })
                  (ground (arith, free)) v')
        ]
      ]

  -- The messages from an index on.
  abbrev pub IsRest : ℕ → List (Message J R) → Type 0
  IsRest index rest =
      (k : ℕ) (m : Message J R) → message_at k rest ≡ some m → message_at (index + k) all ≡ some m

  pub collect_results-IsCollected :
      (boundary minimum index : ℕ) (messages : List (Message J R)) (s : Collected)
      → IsRest index messages
      → IsCollected index s
      → (n : ℕ) × IsCollected n (collect_results calls boundary minimum index messages s)
  unfolding collect_results
  collect_results-IsCollected boundary minimum index [] s rest v = (index, v)
  collect_results-IsCollected boundary minimum index (m ∷ messages) s rest v =
      let at : message_at index all ≡ some m =
        let n : index + 0 ≡ index = omega arith in rw n at (rest 0 m refl) in
      collect_results-IsCollected boundary minimum (index + 1) messages _
        (λ k x e. let n : index + 1 + k ≡ index + suc k = omega arith in rw n (rest (suc k) x e))
        (collect_result-IsCollected boundary minimum index m _ _ s at refl v)

  pub new-IsCollected :
      IsCollected 0 (record { latest = []; candidates = []; protected_results = 0 })
  unfolding AllKnown lookup
  new-IsCollected = record {
    candidates = tt;
    known = λ identity l h. absurd (none-ne-some h);
    before = tt;
  }
