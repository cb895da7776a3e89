-- ===== src/Replica/Service/Start/Resumes.antt =====
-- Any rounds of the loop of `Start` against any network: the number, the checkpoint and the
-- connection.
use novig_take_home.Base.{
  ◌≡◌, refl, sym, ap, ◌∙◌, subst, false, List, [], ◌∷◌, Option, none, some, arith, inl, inr, ◌⊎◌,
  Bool-cases, Option-cases, ◌||◌,
}
use novig_take_home.Base.Int.{ℤ, ◌≤ℤ◌, InInt64, int_eq}
use novig_take_home.Base.Decimal.{Bytes}
use novig_take_home.Base.Errors.{Error, ok, is, canceled, seq_gap, eof}
use novig_take_home.Base.Lists.{All}
use novig_take_home.Domain.Json.{Json}
use novig_take_home.Replica.Store.{Sqlite}
use novig_take_home.Replica.Backoff.{Float64}
use novig_take_home.Replica.Service.State.{ServiceConfig, Service, new_service, set_last_error}
use novig_take_home.Replica.Service.Refresh.{refresh_from_snapshot}
use novig_take_home.Replica.Service.Lifetime.{Inv, new_service-Inv}
use novig_take_home.Replica.Service.Connection.{fetch_snapshot, consume_stream, ensure_bootstrapped}
use novig_take_home.Replica.Service.Start.{
  Round, Next, returns, again, waits, wait_backoff, after_refresh, on_gap, after_stream,
  bootstrapped_round, start_round, start,
}
use novig_take_home.Replica.Service.Connection.Settles.{
  IsSizedBody, IsSizedStream, Settles, same-Settles, Settles-trans, refresh-Settles, Settles-Inv,
  consume_stream-Settles, ensure_bootstrapped-Settles,
}

module _ (f : Float64) where
  abbrev pub IsSizedRound : Round f → Type 0
  IsSizedRound r =
      IsSizedBody r.snapshot
      × IsSizedBody r.refresh
      × ((query : Bytes) → IsSizedStream (r.stream query))

Next-cases :
    (f : Float64) (n : Next f) → (n ≡ returns) ⊎ (n ≡ again) ⊎ ((delay : ℤ) × (n ≡ waits delay))
Next-cases f returns = inl refl
Next-cases f again = inr (inl refl)
Next-cases f (waits delay) = inr (inr (delay, refl))

new_service_off :
    (sql : Sqlite) (db : sql.Db) (cfg : ServiceConfig) (s : Service sql)
    → new_service sql db cfg ≡ ok s
    → s.connected ≡ false
unfolding new_service
new_service_off sql db cfg s h = ground (arith, h)

module _ (sql : Sqlite) (json : Json) (f : Float64) where
  -- The writes to the connection, the last error and the attempts.
  noted-Settles :
      (s s' : Service sql)
      → Inv sql json s
      → s' ≡ record s {
        connected = s'.connected;
        last_error = s'.last_error;
        reconnect_attempts = s'.reconnect_attempts;
      }
      → ((s.connected ≡ false) → s'.connected ≡ false)
      → Settles sql json s s'
  noted-Settles s s' v e off =
      same-Settles sql json s s' v (ap (λ z. sql.tables z.store) e) (ap (λ z. z.last_applied_seq) e)
        off

  on_gap-Settles :
      (r : Round f) (e : Error) (s : Service sql)
      → IsSizedBody r.refresh
      → Inv sql json s
      → Settles sql json s (on_gap f sql json r e s).1
  unfolding on_gap after_refresh wait_backoff set_last_error
  on_gap-Settles r e s sized v =
      let s₁ = set_last_error sql (some e) s in
      let a = noted-Settles s s₁ v refl (λ h. h) in
      let v₁ = Settles-Inv sql json s s₁ a in
      let b = refresh-Settles sql json r.refresh r.refresh_ms s₁ sized v₁ in
      let s₂ = (refresh_from_snapshot sql (fetch_snapshot r.refresh) r.refresh_ms s₁).1 in
      elim (Option-cases (refresh_from_snapshot sql (fetch_snapshot r.refresh) r.refresh_ms s₁).0) [
        | inl done ↦ rw (done, after_refresh) (Settles-trans sql json s s₁ s₂ a b)
        | inr (x, failed) ↦
            rw (failed, after_refresh)
              (Settles-trans sql json s s₁ _ a (
                Settles-trans sql json s₁ s₂ _ b
                  (noted-Settles s₂ _ (Settles-Inv sql json s₁ s₂ b) refl (λ h. h))))
      ]

  after_stream-Settles :
      (r : Round f) (e : Error) (s : Service sql)
      → IsSizedBody r.refresh
      → Inv sql json s
      → Settles sql json s (after_stream f sql json r (e, s)).1
  unfolding after_stream wait_backoff set_last_error
  after_stream-Settles r e s sized v = elim (Bool-cases (r.done_after || is e canceled)) [
    | inl over ↦ rw (over, after_stream) (noted-Settles s _ v refl (λ _. refl))
    | inr on ↦ elim (Bool-cases (is e seq_gap)) [
      | inl gap ↦ rw (on, gap, after_stream) (on_gap-Settles r e s sized v)
      | inr no_gap ↦ elim (Bool-cases (is e eof)) [
        | inl ended ↦ rw (on, no_gap, ended, after_stream) (noted-Settles s _ v refl (λ _. refl))
        | inr failed ↦ rw (on, no_gap, failed, after_stream) (noted-Settles s _ v refl (λ _. refl))
      ]
    ]
  ]

  bootstrapped-Settles :
      (r : Round f) (p : Option Error × Service sql)
      → IsSizedRound f r
      → Inv sql json p.1
      → Settles sql json p.1 (bootstrapped_round f sql json r p).1
  unfolding bootstrapped_round wait_backoff set_last_error
  bootstrapped-Settles r (some e, s) sized v = noted-Settles s _ v refl (λ _. refl)
  bootstrapped-Settles r (none, s) sized v =
      let a = consume_stream-Settles sql json r.stream s sized.2 v in
      let after = consume_stream sql json r.stream s in
      Settles-trans sql json s after.1 _ a
        (after_stream-Settles r after.0 after.1 sized.1 (Settles-Inv sql json s after.1 a))

  start_round-Settles :
      (r : Round f) (s : Service sql)
      → IsSizedRound f r
      → Inv sql json s
      → Settles sql json s (start_round f sql json r s).1
  unfolding start_round
  start_round-Settles r s sized v = elim (Bool-cases r.done) [
    | inl over ↦ rw (over, start_round) (noted-Settles s s v refl (λ h. h))
    | inr on ↦
        let p = ensure_bootstrapped sql r.snapshot r.snapshot_ms s in
        let a = ensure_bootstrapped-Settles sql json r.snapshot r.snapshot_ms s sized.0 v in
        rw (on, start_round)
          (Settles-trans sql json s p.1 _ a
            (bootstrapped-Settles r p sized (Settles-Inv sql json s p.1 a)))
  ]

  start-Settles :
      (rounds : List (Round f)) (s : Service sql)
      → All (IsSizedRound f) rounds
      → Inv sql json s
      → Settles sql json s (start f sql json rounds s).1
  unfolding start
  start-Settles [] s sized v = noted-Settles s s v refl (λ h. h)
  start-Settles (r ∷ rounds) s sized v =
      let a = start_round-Settles r s sized.0 v in
      let s' = (start_round f sql json r s).1 in
      let b = start-Settles rounds s' sized.1 (Settles-Inv sql json s s' a) in
      elim (Next-cases f (start_round f sql json r s).0) [
        | inl over ↦ rw (over, start) a
        | inr (inl on) ↦ rw (on, start) (Settles-trans sql json s s' _ a b)
        | inr (inr (delay, on)) ↦ rw (on, start) (Settles-trans sql json s s' _ a b)
      ]

  -- A replica that starts on a store whose checkpoint is of 64 bits, and then runs any rounds of
  -- the loop against any network, which brings numbers of 64 bits: its number is never lower than
  -- the checkpoint that it started from; it counts as connected at the end of no round; and a
  -- replica that starts next on the store that it leaves resumes from exactly its number.
  pub start-resumes :
      (db : sql.Db) (cfg : ServiceConfig) (s : Service sql) (rounds : List (Round f))
      (cfg' : ServiceConfig) (t : Service sql)
      → InInt64 (sql.tables db).checkpoint.last_applied_seq
      → All (IsSizedRound f) rounds
      → new_service sql db cfg ≡ ok s
      → new_service sql (start f sql json rounds s).1.store cfg' ≡ ok t
      → (t.last_applied_seq ≡ (start f sql json rounds s).1.last_applied_seq)
        × ((sql.tables db).checkpoint.last_applied_seq ≤ℤ t.last_applied_seq)
        × ((start f sql json rounds s).1.connected ≡ false)
  unfolding Settles
  start-resumes db cfg s rounds cfg' t room sized started restarted =
      let (loaded, stored) = new_service-Inv sql json db cfg s started in
      let v : Inv sql json s = record {
        durable = stored ∙ sym loaded;
        sized = subst InInt64 (sym loaded) room;
      } in
      let ((v', up), off) = start-Settles rounds s sized v in
      let resumed = (new_service-Inv sql json _ cfg' t restarted).0 ∙ v'.durable in
      (
        resumed,
        subst (λ z. (sql.tables db).checkpoint.last_applied_seq ≤ℤ z) (sym resumed)
            (subst (λ z. z ≤ℤ (start f sql json rounds s).1.last_applied_seq) loaded up),
        off (new_service_off sql db cfg s started),
      )
