-- ===== src/Replica/Service/Lifetime.antt =====
-- A replica's life: any sequence of events, snapshots and changes of the connection, then a restart.
use novig_take_home.Base.{
  ◌≡◌, refl, sym, ap, ◌∙◌, subst, Bool, List, [], ◌∷◌, arith, inl, inr, ◌==◌, string_eq, Bool-cases,
}
use novig_take_home.Base.Int.{ℤ, pos, ◌≤ℤ◌, ◌<ℤ◌, InInt64, add64, int64, ◌+ℤ◌}
use novig_take_home.Base.Errors.{Result, ok, Result-cases, ok_injective}
use novig_take_home.Base.Lists.{All}
use novig_take_home.Domain.{ReplicationEvent, SnapshotResponse}
use novig_take_home.Domain.Json.{Json}
use novig_take_home.Replica.Store.{Sqlite, get_checkpoint}
use novig_take_home.Replica.Store.Atomicity.{record_applied}
use novig_take_home.Replica.Validate.Accepted.{validate_event_envelope_iff}
use novig_take_home.Replica.Validate.Snapshots.{validate_snapshot-inv}
use novig_take_home.Replica.Service.State.{ServiceConfig, Service, new_service, set_connected}
use novig_take_home.Replica.Service.Process.{process_event}
use novig_take_home.Replica.Service.Process.Outcome.{
  advanced, repeated, out_of_order, invalid, store_failed, process_event-Processed,
}
use novig_take_home.Replica.Service.Refresh.{refresh_from_snapshot}
use novig_take_home.Replica.Service.Refresh.Outcome.{
  installed, kept, refresh_from_snapshot-Refreshed,
}

-- The times are the clock's readings.
pub data Call : Type 0 where
  processes : ReplicationEvent → ℤ → Call
  refreshes : Result SnapshotResponse → ℤ → Call
  connects : Bool → Call

-- The numbers that a call brings are of 64 bits.
abbrev pub IsCall : Call → Type 0
IsCall (processes evt now_ms) = InInt64 evt.seq
IsCall (refreshes (ok snapshot) now_ms) = InInt64 snapshot.last_seq
IsCall _ = Unit

next_greater : (a b : ℤ) → InInt64 a → b ≡ add64 a (pos 1) → pos 0 <ℤ b → a ≤ℤ b
unfolding add64 int64 ◌+ℤ◌
next_greater a b h e p = ground arith

pub ≤ℤ_trans : (a b c : ℤ) → a ≤ℤ b → b ≤ℤ c → a ≤ℤ c
≤ℤ_trans a b c h k = omega arith

module _ (sql : Sqlite) (json : Json) where
  unfoldable pub step : Call → Service sql → Service sql
  step (processes evt now_ms) s = (process_event sql json evt now_ms s).1
  step (refreshes fetched now_ms) s = (refresh_from_snapshot sql fetched now_ms s).1
  step (connects v) s = set_connected sql v s

  unfoldable pub run : List Call → Service sql → Service sql
  unfolding step
  run [] s = s
  run (c ∷ calls) s = run calls (step c s)

  -- The number in memory is the one in the store.
  pub record Inv (s : Service sql) : Type 0 where
    pub durable : (sql.tables s.store).checkpoint.last_applied_seq ≡ s.last_applied_seq
    pub sized : InInt64 s.last_applied_seq

  abbrev pub Steps : Service sql → Service sql → Type 0
  Steps s s' = Inv s' × (s.last_applied_seq ≤ℤ s'.last_applied_seq)

  abbrev pub checkpoint_of : sql.Db → ℤ
  checkpoint_of db = (sql.tables db).checkpoint.last_applied_seq

  pub same-Steps :
      (s s' : Service sql)
      → Inv s
      → sql.tables s'.store ≡ sql.tables s.store
      → s'.last_applied_seq ≡ s.last_applied_seq
      → Steps s s'
  same-Steps s s' v t e = (
    record {
      durable = ap (λ z. z.checkpoint.last_applied_seq) t ∙ v.durable ∙ sym e;
      sized = subst InInt64 (sym e) v.sized;
    },
    subst (λ z. s.last_applied_seq ≤ℤ z) (sym e) (omega arith),
  )

  pub process-Steps :
      (evt : ReplicationEvent) (now_ms : ℤ) (s : Service sql)
      → InInt64 evt.seq
      → Inv s
      → Steps s (process_event sql json evt now_ms s).1
  unfolding record_applied
  process-Steps evt now_ms s room v = elim (process_event-Processed sql json evt now_ms s) [
    | advanced market _ good _ next _ t e ↦
        let now_at = e.number in
        (
          record {
            durable = ap (λ z. z.checkpoint.last_applied_seq) t ∙ sym now_at;
            sized = subst InInt64 (sym now_at) room;
          },
          subst (λ z. s.last_applied_seq ≤ℤ z) (sym now_at)
              (next_greater s.last_applied_seq evt.seq v.sized next
                ((validate_event_envelope_iff evt).0 good).1),
        )
    | repeated _ _ _ t e ↦ same-Steps s _ v t (ap (λ z. z.last_applied_seq) e.others)
    | out_of_order _ _ _ _ _ _ t e ↦ same-Steps s _ v t (ap (λ z. z.last_applied_seq) e)
    | invalid _ _ _ t e ↦ same-Steps s _ v t (ap (λ z. z.last_applied_seq) e)
    | store_failed _ _ _ t e ↦ same-Steps s _ v t (ap (λ z. z.last_applied_seq) e)
  ]

  pub refresh-Steps :
      (fetched : Result SnapshotResponse) (now_ms : ℤ) (s : Service sql)
      → IsCall (refreshes fetched now_ms)
      → Inv s
      → Steps s (refresh_from_snapshot sql fetched now_ms s).1
  refresh-Steps fetched now_ms s room v =
      elim (refresh_from_snapshot-Refreshed sql now_ms fetched s) [
        | installed snapshot markets got _ valid t e ↦
            let now_at = ap (λ z. z.last_applied_seq) e in
            let (_, least, _) = validate_snapshot-inv snapshot s.last_applied_seq markets valid in
            (
              record {
                durable = ap (λ z. z.checkpoint.last_applied_seq) t ∙ sym now_at;
                sized =
                    subst InInt64 (sym now_at) (subst (λ z. IsCall (refreshes z now_ms)) got room);
              },
              subst (λ z. s.last_applied_seq ≤ℤ z) (sym now_at) least,
            )
        | kept _ _ _ t e ↦ same-Steps s _ v t (ap (λ z. z.last_applied_seq) e)
      ]

  step-Steps : (c : Call) (s : Service sql) → IsCall c → Inv s → Steps s (step c s)
  unfolding step
  step-Steps (processes evt now_ms) s room v = process-Steps evt now_ms s room v
  step-Steps (refreshes fetched now_ms) s room v = refresh-Steps fetched now_ms s room v
  step-Steps (connects b) s room v = same-Steps s _ v refl refl

  run-Steps :
      (calls : List Call) (s : Service sql) → All IsCall calls → Inv s → Steps s (run calls s)
  unfolding run
  run-Steps [] s good v = (v, omega arith)
  run-Steps (c ∷ calls) s good v =
      let (v', up) = step-Steps c s good.0 v in
      let (v'', more) = run-Steps calls (step c s) good.1 v' in
      (v'', ≤ℤ_trans s.last_applied_seq (step c s).last_applied_seq _ up more)

  -- A service that starts holds the number of the store.
  pub new_service-Inv :
      (db : sql.Db) (cfg : ServiceConfig) (s : Service sql)
      → new_service sql db cfg ≡ ok s
      → (s.last_applied_seq ≡ checkpoint_of db) × (checkpoint_of s.store ≡ checkpoint_of db)
  unfolding new_service get_checkpoint
  new_service-Inv db cfg s h = elim (Bool-cases (cfg.core_base_url == "")) [
    | inl empty ↦ let impossible = (rw empty at h) in cc impossible
    | inr given ↦ elim (Result-cases (sql.query_checkpoint db).0) [
      | inl (seq, e) ↦
          let s_is = ok_injective _ s (rw (given, e) at h) in
          (
            ap (λ z. z.last_applied_seq) (sym s_is) ∙ sql.query_checkpoint_value db seq e,
            ap (λ z. checkpoint_of z.store) (sym s_is)
                ∙ ap (λ z. z.checkpoint.last_applied_seq) (sql.query_checkpoint_keeps db),
          )
      | inr (x, e) ↦ let impossible = (rw (given, e) at h) in cc impossible
    ]
  ]

  -- A replica that starts on a store whose checkpoint is of 64 bits, and then sees any events,
  -- snapshots and changes of the connection in any order: its number is never lower than the
  -- checkpoint that it started from, and a replica that starts next on the store that it leaves
  -- resumes from exactly its number.
  pub restart-resumes :
      (db : sql.Db) (cfg : ServiceConfig) (s : Service sql) (calls : List Call)
      (cfg' : ServiceConfig) (t : Service sql)
      → InInt64 (sql.tables db).checkpoint.last_applied_seq
      → All IsCall calls
      → new_service sql db cfg ≡ ok s
      → new_service sql (run calls s).store cfg' ≡ ok t
      → (t.last_applied_seq ≡ (run calls s).last_applied_seq)
        × ((sql.tables db).checkpoint.last_applied_seq ≤ℤ t.last_applied_seq)
  restart-resumes db cfg s calls cfg' t room good started restarted =
      let (loaded, stored) = new_service-Inv db cfg s started in
      let inv : Inv s = record {
        durable = stored ∙ sym loaded;
        sized = subst InInt64 (sym loaded) room;
      } in
      let (v, up) = run-Steps calls s good inv in
      let resumed = (new_service-Inv (run calls s).store cfg' t restarted).0 ∙ v.durable in
      (
        resumed,
        subst (λ z. (sql.tables db).checkpoint.last_applied_seq ≤ℤ z) (sym resumed)
            (subst (λ z. z ≤ℤ (run calls s).last_applied_seq) loaded up),
      )
