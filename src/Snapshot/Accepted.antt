-- ===== src/Snapshot/Accepted.antt =====
-- src/snapshot_query.rs: which records a query accepts.
use cultnet_rs.Base.{
  ℕ, ◌≡◌, ◌≢◌, ◌↔◌, ◌⊎◌, refl, arith, List, [], ◌∷◌, true, false, not, Option, none, some, All,
}
use cultnet_rs.Base.Outcome.{ok, >>=-eq-ok, bail_if-eq-ok, ok-injective}
use cultnet_rs.Base.BTreeMap.{BTreeMap, get, insert, contains_key, contains_key-insert}
use cultnet_rs.Base.Order.{bytes_ord, pair_ord, bytes_eq, bytes_eq_iff, pair_eq_iff}
use cultnet_rs.Message
use cultnet_rs.Message.{CultNetMessage, CultNetRawDocumentRecord}
use cultnet_rs.Snapshot.{duplicate_record, unknown_message_id}
use cultnet_rs.Snapshot.Query.{
  CultNetSnapshotSourceExpectation, CultNetRawSnapshotQuery, Expectations, identity, check_record,
  check_records, accept_response, require_expected_metadata, require_expected_tags, lists_eq,
  expected_source,
}

-- A value is as expected: nothing is, or the same.
abbrev pub Agrees : {A : Type 0} → Option A → Option A → Type 0
Agrees expected actual = (expected ≡ none) ⊎ (actual ≡ expected)

-- The record is one that was asked for, from the source that was expected.
abbrev pub IsExpected : Expectations → CultNetRawDocumentRecord → Type 0
IsExpected expectations document =
    (source : CultNetSnapshotSourceExpectation) × (get (identity document) expectations
      ≡ some source)
    × Agrees source.runtime_id document.source_runtime_id
    × Agrees source.agent_id document.source_agent_id
    × Agrees source.role document.source_role
    × Agrees source.tags document.tags

-- No two records have the same schema id and key.
abbrev pub Distinct : List CultNetRawDocumentRecord → Type 0
Distinct [] = Unit {0}
Distinct (document ∷ documents) =
    All (λ other. identity other ≢ identity document) documents × Distinct documents

lists_eq_iff : (xs ys : List (List ℕ)) → (lists_eq xs ys ≡ true) ↔ (xs ≡ ys)
lists_eq_iff [] [] = ground arith
lists_eq_iff [] (y ∷ ys) = ground arith
lists_eq_iff (x ∷ xs) [] = ground arith
lists_eq_iff (x ∷ xs) (y ∷ ys) = ground (arith, bytes_eq_iff x y, lists_eq_iff xs ys)

metadata_lem :
    (expected actual : Option (List ℕ))
    → (require_expected_metadata expected actual ≡ ok tt) ↔ Agrees expected actual
metadata_lem none actual = ground arith
metadata_lem (some expected) none = ground arith
metadata_lem (some expected) (some actual) = ground (arith, bytes_eq_iff actual expected)

tags_lem :
    (expected actual : Option (List (List ℕ)))
    → (require_expected_tags expected actual ≡ ok tt) ↔ Agrees expected actual
tags_lem none actual = ground arith
tags_lem (some expected) none = ground arith
tags_lem (some expected) (some actual) = ground (arith, lists_eq_iff actual expected)

expected_source_lem :
    (found : Option CultNetSnapshotSourceExpectation) (source : CultNetSnapshotSourceExpectation)
    → expected_source found ≡ ok source
    → found ≡ some source
expected_source_lem none source e = cc
expected_source_lem (some other) source e = cc

check_record-IsExpected :
    (expectations : Expectations) (document : CultNetRawDocumentRecord)
    → (check_record expectations document ≡ ok tt) ↔ IsExpected expectations document
unfolding check_record
check_record-IsExpected expectations document = (to, from)
  where
    to : check_record expectations document ≡ ok tt → IsExpected expectations document
    to e =
        let (source, found, e1) =
          >>=-eq-ok _ (expected_source (get (identity document) expectations)) e in
        let (_, runtime, e2) =
          >>=-eq-ok _ (require_expected_metadata source.runtime_id document.source_runtime_id) e1 in
        let (_, agent, e3) =
          >>=-eq-ok _ (require_expected_metadata source.agent_id document.source_agent_id) e2 in
        let (_, role, e4) =
          >>=-eq-ok _ (require_expected_metadata source.role document.source_role) e3 in
        (
          source,
          expected_source_lem _ source found,
          (metadata_lem _ _).0 runtime,
          (metadata_lem _ _).0 agent,
          (metadata_lem _ _).0 role,
          (tags_lem _ _).0 e4,
        )

    from : IsExpected expectations document → check_record expectations document ≡ ok tt
    from (source, found, runtime, agent, role, tags) =
        rw
          (
            found,
            (metadata_lem _ _).1 runtime,
            (metadata_lem _ _).1 agent,
            (metadata_lem _ _).1 role,
            (tags_lem _ _).1 tags,
          )
          refl

abbrev pub Unseen : BTreeMap (List ℕ × List ℕ) (Unit {0}) → List CultNetRawDocumentRecord → Type 0
Unseen seen documents = All (λ document. contains_key (identity document) seen ≡ false) documents

pub Unseen-insert :
    (document : CultNetRawDocumentRecord) (seen : BTreeMap (List ℕ × List ℕ) (Unit {0}))
    (documents : List CultNetRawDocumentRecord)
    → Unseen (insert (identity document) tt seen) documents
      ↔ (Unseen seen documents × All (λ other. identity other ≢ identity document) documents)
Unseen-insert document seen [] = ground arith
Unseen-insert document seen (other ∷ documents) = ground (
  arith,
  Unseen-insert document seen documents,
  contains_key-insert (identity document) (identity other) tt seen,
  pair_eq_iff (identity document) (identity other),
)

check_records-Distinct :
    (expectations : Expectations) (seen : BTreeMap (List ℕ × List ℕ) (Unit {0}))
    (documents : List CultNetRawDocumentRecord)
    → (check_records expectations seen documents ≡ ok tt)
      ↔ (All (IsExpected expectations) documents × Distinct documents × Unseen seen documents)
unfolding check_records
check_records-Distinct expectations seen [] = ((λ e. (tt, tt, tt)), (λ h. refl))
check_records-Distinct expectations seen (document ∷ documents) =
    let ih = check_records-Distinct expectations (insert (identity document) tt seen) documents in
    (to ih, from ih)
  where
    Rest : Type 0
    Rest = (check_records expectations (insert (identity document) tt seen) documents ≡ ok tt) ↔ (
        All (IsExpected expectations) documents
        × Distinct documents
        × Unseen (insert (identity document) tt seen) documents)

    to :
        Rest
        → check_records expectations seen (document ∷ documents) ≡ ok tt
        → All (IsExpected expectations) (document ∷ documents)
          × Distinct (document ∷ documents)
          × Unseen seen (document ∷ documents)
    to ih e =
        let (new, e1) =
          bail_if-eq-ok (contains_key (identity document) seen) duplicate_record _ e in
        let (_, checked, e2) = >>=-eq-ok _ (check_record expectations document) e1 in
        let (expected, distinct, unseen) = ih.0 e2 in
        let (unseen', others) = (Unseen-insert document seen documents).0 unseen in
        (
          ((check_record-IsExpected expectations document).0 checked, expected),
          (others, distinct),
          (new, unseen'),
        )

    from :
        Rest
        → All (IsExpected expectations) (document ∷ documents)
          × Distinct (document ∷ documents)
          × Unseen seen (document ∷ documents)
        → check_records expectations seen (document ∷ documents) ≡ ok tt
    from ih ((one, expected), (others, distinct), (new, unseen)) =
        let unseen' = (Unseen-insert document seen documents).1 (unseen, others) in
        rw
          (
            new,
            (check_record-IsExpected expectations document).1 one,
            ih.1 (expected, distinct, unseen'),
          )
          refl

Unseen-empty : (documents : List CultNetRawDocumentRecord) → Unseen [] documents
unfolding contains_key
Unseen-empty [] = tt
Unseen-empty (document ∷ documents) = (refl, Unseen-empty documents)

-- A query accepts a message with some records exactly when it is the raw response to the query's message id with
-- these records, each of them was asked for and its metadata agrees with what the query expects, and no two of
-- them have the same schema id and key.
pub accept_response-IsExpected :
    (query : CultNetRawSnapshotQuery) (response : CultNetMessage)
    (documents : List CultNetRawDocumentRecord)
    → (accept_response query response ≡ ok documents) ↔ (
        (response ≡ Message.snapshot_response_raw query.message_id documents)
        × All (IsExpected query.expectations) documents
        × Distinct documents)
unfolding accept_response
accept_response-IsExpected query response documents = (to response, from)
  where
    to :
        (response : CultNetMessage)
        → accept_response query response ≡ ok documents
        → (response ≡ Message.snapshot_response_raw query.message_id documents)
          × All (IsExpected query.expectations) documents
          × Distinct documents
    to (Message.snapshot_response_raw message_id given) e =
        let (same, e1) =
          bail_if-eq-ok (not (bytes_eq message_id query.message_id)) unknown_message_id _ e in
        let (_, checked, e2) = >>=-eq-ok _ (check_records query.expectations [] given) e1 in
        let (expected, distinct, _) =
          (check_records-Distinct query.expectations [] given).0 checked in
        let answered : message_id ≡ query.message_id =
          ground (arith, bytes_eq_iff message_id query.message_id) in
        rw (← ok-injective e2, answered) (refl, expected, distinct)
    to other e = cc

    from :
        (response ≡ Message.snapshot_response_raw query.message_id documents)
          × All (IsExpected query.expectations) documents
          × Distinct documents
        → accept_response query response ≡ ok documents
    from (answer, expected, distinct) =
        rw
          (
            answer,
            (bytes_eq_iff query.message_id query.message_id).1 refl,
            (check_records-Distinct query.expectations [] documents).1
                (expected, distinct, Unseen-empty documents),
          )
          refl
