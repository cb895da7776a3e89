-- ===== src/Replica/Store/Atomicity.antt =====
-- `CommitAppliedEvent` is atomic: the row and the checkpoint are written together or not at all.
use novig_take_home.Base.{
  String, Bool, true, false, ◌≡◌, refl, ◌∙◌, ap, [], arith, Bool-cases, Option-cases, inl, inr, ◌⊎◌,
}
use novig_take_home.Base.Int.{ℤ, pos, int_eq}
use novig_take_home.Base.Errors.{Error, wrap, Result, ok, err, Result-cases}
use novig_take_home.Replica.Store.{
  AppliedEvent, Tables, Sqlite, is_applied, insert_or_ignore, update_checkpoint, finish,
  apply_in_tx, commit_in_tx, commit_applied_event,
}

-- The tables with the event's row and the checkpoint at its number.
unfoldable pub record_applied : String → ℤ → ℤ → Tables → Tables
record_applied event_id seq ts_ms t =
    update_checkpoint seq ts_ms
      (insert_or_ignore (record { event_id = event_id; seq = seq; applied_at_ms = ts_ms }) t).1

module _ (sql : Sqlite) where
  -- What a commit of an event answers, and the tables that it leaves.
  pub data Committed (event_id : String) (seq ts_ms : ℤ) (before : Tables) (answer : Result Bool)
      (after : Tables) : Type 0 where
    applied :
        answer ≡ ok true
        → is_applied event_id before.applied_events ≡ false
        → after ≡ record_applied event_id seq ts_ms before
        → Committed event_id seq ts_ms before answer after
    duplicate :
        answer ≡ ok false
        → is_applied event_id before.applied_events ≡ true
        → after ≡ before
        → Committed event_id seq ts_ms before answer after
    failed :
        (e : Error)
        → answer ≡ err e
        → after ≡ before
        → Committed event_id seq ts_ms before answer after

  finish-tables :
      (format : String) (b : Bool) (tx : sql.Tx) (db : sql.Db)
      → let r = finish sql format b tx db in
        ((r.0 ≡ ok b) × (sql.tables r.1 ≡ sql.pending tx))
        ⊎ ((e : Error) × (r.0 ≡ err e) × (sql.tables r.1 ≡ sql.tables db))
  unfolding finish
  finish-tables format b tx db = elim (Option-cases (sql.commit tx db).0) [
    | inl e ↦ inl (
      ground (arith, e),
      sql.rollback_keeps tx (sql.commit tx db).1
          ∙ sql.commit_done tx db _ (ap (λ z. (z, (sql.commit tx db).1)) e),
    )
    | inr (x, e) ↦ inr (
      wrap format [] x,
      ground (arith, e),
      sql.rollback_keeps tx (sql.commit tx db).1
          ∙ sql.commit_failed tx db _ x (ap (λ z. (z, (sql.commit tx db).1)) e),
    )
  ]

  module _ (event_id : String) (seq ts_ms : ℤ) (before : Tables) where
    row : AppliedEvent
    row = record { event_id = event_id; seq = seq; applied_at_ms = ts_ms }

    apply_in_tx-Committed :
        (tx : sql.Tx) (db : sql.Db)
        → is_applied event_id before.applied_events ≡ false
        → sql.pending tx ≡ (insert_or_ignore row before).1
        → sql.tables db ≡ before
        → let r = apply_in_tx sql seq ts_ms tx db in
          Committed event_id seq ts_ms before r.0 (sql.tables r.1)
    unfolding apply_in_tx record_applied row
    apply_in_tx-Committed tx db fresh inserted same =
        elim (Option-cases (sql.tx_update seq ts_ms tx).0) [
          | inl e ↦
              let tx' = (sql.tx_update seq ts_ms tx).1 in
              let updated = sql.tx_update_done seq ts_ms tx tx' (ap (λ z. (z, tx')) e) in
              elim (finish-tables "commit apply tx: %w" true tx' db) [
                | inl (a, t) ↦
                    rw (e, apply_in_tx)
                      (applied a fresh (t ∙ updated ∙ ap (update_checkpoint seq ts_ms) inserted))
                | inr (x, a, t) ↦ rw (e, apply_in_tx) (failed x a (t ∙ same))
              ]
          | inr (x, e) ↦
              rw (e, apply_in_tx)
                (failed _ refl (sql.rollback_keeps (sql.tx_update seq ts_ms tx).1 db ∙ same))
        ]

    affected_lem :
        (n : ℤ) (t : Tables)
        → (n, t) ≡ insert_or_ignore row before
        → ((n ≡ pos 0) × (is_applied event_id before.applied_events ≡ true) × (t ≡ before))
          ⊎ ((n ≡ pos 1)
              × (is_applied event_id before.applied_events ≡ false)
              × (t ≡ (insert_or_ignore row before).1))
    unfolding insert_or_ignore row
    affected_lem n t h = elim (Bool-cases (is_applied event_id before.applied_events)) [
      | inl e ↦ let q = (rw e at h) in inl (ap (λ p. p.0) q, e, ap (λ p. p.1) q)
      | inr e ↦ inr (let q = (rw e at h) in ap (λ p. p.0) q, e, ap (λ p. p.1) h)
    ]

    commit_in_tx-Committed :
        (inserted : Result (Result ℤ)) (tx : sql.Tx) (db : sql.Db)
        → ((n : ℤ) → inserted ≡ ok (ok n) → (n, sql.pending tx) ≡ insert_or_ignore row before)
        → sql.tables db ≡ before
        → let r = commit_in_tx sql seq ts_ms inserted tx db in
          Committed event_id seq ts_ms before r.0 (sql.tables r.1)
    unfolding commit_in_tx
    commit_in_tx-Committed (err e) tx db law same = failed _ refl (sql.rollback_keeps tx db ∙ same)
    commit_in_tx-Committed (ok (err e)) tx db law same =
        failed _ refl (sql.rollback_keeps tx db ∙ same)
    commit_in_tx-Committed (ok (ok n)) tx db law same =
        elim (affected_lem n (sql.pending tx) (law n refl)) [
          | inl (zero, there, kept) ↦ elim (finish-tables "commit duplicate tx: %w" false tx db) [
            | inl (a, t) ↦ rw (zero, commit_in_tx) (duplicate a there (t ∙ kept))
            | inr (x, a, t) ↦ rw (zero, commit_in_tx) (failed x a (t ∙ same))
          ]
          | inr (one, fresh, grown) ↦
              rw (one, commit_in_tx) (apply_in_tx-Committed tx db fresh grown same)
        ]

  -- An event is applied exactly if it was not yet, with its row and the checkpoint written together;
  -- a duplicate and a failure at any statement leave both tables as they were.
  pub commit_applied_event-Committed :
      (event_id : String) (seq ts_ms : ℤ) (db : sql.Db)
      → let r = commit_applied_event sql event_id seq ts_ms db in
        Committed event_id seq ts_ms (sql.tables db) r.0 (sql.tables r.1)
  unfolding commit_applied_event row
  commit_applied_event-Committed event_id seq ts_ms db = elim (Result-cases (sql.begin db).0) [
    | inl (tx, e) ↦
        let ins =
          sql.tx_insert (record { event_id = event_id; seq = seq; applied_at_ms = ts_ms }) tx in
        rw (e, commit_applied_event)
          (commit_in_tx-Committed event_id seq ts_ms (sql.tables db) ins.0 ins.1 (sql.begin db).1
            (λ n h.
              sql.tx_insert_done _ tx ins.1 n (ap (λ z. (z, ins.1)) h)
              ∙ ap (insert_or_ignore _) (sql.begin_sees db tx e))
            (sql.begin_keeps db))
    | inr (x, e) ↦ rw (e, commit_applied_event) (failed _ refl (sql.begin_keeps db))
  ]
