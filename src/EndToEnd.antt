-- ===== src/EndToEnd.antt =====
-- The core's log read by a replica: internal/core/service.go beside internal/replica/service.go.
pub mod Rounds
pub mod Bootstrap
pub mod Wire
pub mod Heartbeat
pub mod Recovery
mod Tests
use novig_take_home.Base.{
  ℕ, suc, ◌<◌, ◌^◌, String, ◌≡◌, ◌≢◌, refl, sym, ap, ◌∙◌, List, [], ◌∷◌, ◌++◌, Option, none, some,
  arith, inl, inr, string_eq, Option-cases, ◌⊎◌,
}
use novig_take_home.Base.Int.{ℤ, pos, ◌<ℤ◌}
use novig_take_home.Base.Lists.{All}
use novig_take_home.Base.Errors.{Error}
use novig_take_home.Base.Map.{get}
use novig_take_home.Domain.{
  MarketState, ReplicationEvent, EventType, market_updated, market_suspended, market_reopened,
  other_event, MarketStatus, status_open, status_suspended,
}
use novig_take_home.Domain.Json.{Json}
use novig_take_home.Domain.Breaker.Coherence.{Announces}
use novig_take_home.Core.EventStore as Events
use novig_take_home.Core.EventStore.Log.{Sequenced}
use novig_take_home.Core.Service.State as Core
use novig_take_home.Core.Service.Replay.{last_state}
use novig_take_home.Core.Service.Consistency.{Consistent, Sound}
use novig_take_home.Replica.Store.{Sqlite}
use novig_take_home.Replica.Validate.Accepted.{IsSupported, Requires}
use novig_take_home.Replica.Service.State.{Service}
use novig_take_home.Replica.Service.Stream.{Line, consume_lines}
use novig_take_home.Replica.Service.Stream.Lines.{Reliable, IsGood, AreNew, LinesOf}
use novig_take_home.Replica.Service.Stream.CatchUp.{or_else, CaughtUp, consume_lines-CaughtUp}

announced :
    (event_type : EventType) (status : MarketStatus)
    → Announces event_type status
    → IsSupported event_type
      × ((status ≡ status_open) ⊎ (status ≡ status_suspended))
      × Requires event_type status
announced market_updated status h = (tt, h, tt)
announced market_suspended status h = (tt, inr h, h)
announced market_reopened status h = (tt, inl h, h)
announced (other_event e) status h = absurd h

pub Sequenced-tail :
    (lo n m : ℕ) (xs ys : List ReplicationEvent)
    → Sequenced lo xs n
    → Sequenced lo (xs ++ ys) m
    → Sequenced n ys m
Sequenced-tail lo n m [] ys at all = rw (← at) all
Sequenced-tail lo n m (x ∷ xs) ys at all = Sequenced-tail (suc lo) n m xs ys at.1 all.1

-- What uuid.NewString and the core's handlers see to.
abbrev pub IsNamed : ReplicationEvent → Type 0
IsNamed evt = (evt.event_id ≢ "") × (evt.market_id ≢ "")

module _ (core_sql : Events.Sqlite) (sql : Sqlite) (json : Json) where
  Sound-IsGood :
      (evt : ReplicationEvent) (n : ℕ)
      → Sound core_sql json evt
      → IsNamed evt
      → evt.seq ≡ pos (suc n)
      → IsGood json evt
  Sound-IsGood evt n sound (id, market_id) numbered =
      let (supported, known, required) =
        announced evt.event_type (sound.state).status sound.announces in
      (
        (id, rw numbered (omega arith), market_id, supported),
        sound.state,
        sound.carries,
        (
          (λ empty. market_id (sym sound.member.named ∙ empty), known),
          sound.member.named,
          required,
        ),
      )

  pub All-IsGood :
      (n m : ℕ) (evts : List ReplicationEvent)
      → Sequenced n evts m
      → All (Sound core_sql json) evts
      → All IsNamed evts
      → All (IsGood json) evts
  All-IsGood n m [] seqs sound named = tt
  All-IsGood n m (evt ∷ rest) seqs sound named =
      (Sound-IsGood evt n sound.0 named.0 seqs.0, All-IsGood (suc n) m rest seqs.1 sound.1 named.1)

  pub core_state :
      (before evts : List ReplicationEvent) (m : ℕ) (core : Core.Service core_sql) (id : String)
      (state : MarketState)
      → Consistent core_sql json before evts m core
      → last_state json evts id ≡ some state
      → get core.markets id ≡ some state
  core_state before evts m core id state c h = elim (Option-cases (get core.markets id)) [
    | inl gone ↦ absurd (cc (sym h ∙ c.replays.absent id gone))
    | inr (w, found) ↦ elim (c.replays.present id w found) [
      | inl e ↦ found ∙ sym e ∙ h
      | inr (e, _, _) ↦ absurd (cc (sym h ∙ e))
    ]
  ]

  -- A core's log is what was there at some start, numbered from 1 to n, and its events since then.
  -- A replica at number n, over a store that does not fail, reads the lines of those events, whose
  -- identifiers are not empty and new to it. It accepts each of them, reads to the end of the
  -- stream, and has the core's number then; and of each market with an event it has the state that
  -- the core has.
  pub converges :
      (works : Reliable sql) (before evts : List ReplicationEvent) (n m : ℕ)
      (core : Core.Service core_sql) (lines : List (Line × ℤ)) (ended : Error) (s : Service sql)
      (id : String) (state : MarketState)
      → Consistent core_sql json before evts m core
      → Sequenced 0 before n
      → m < 2 ^ 63
      → LinesOf evts lines
      → All IsNamed evts
      → AreNew (sql.tables s.store).applied_events evts
      → s.last_applied_seq ≡ pos n
      → last_state json evts id ≡ some state
      → let r = consume_lines sql json lines ended s in
        (r.0 ≡ ended)
        × (r.1.last_applied_seq ≡ core.last_seq)
        × (get core.markets id ≡ some state)
        × (get r.1.markets id ≡ some state)
  converges works before evts n m core lines ended s id state c old room sent named new at h =
      let seqs = Sequenced-tail 0 n m before evts old (rw (← c.log) c.inv.log) in
      let done =
        consume_lines-CaughtUp sql json works n m evts lines ended s sent seqs room
          (All-IsGood n m evts seqs c.sound named) new at in
      (
        done.to_the_end,
        done.number ∙ sym c.inv.last,
        core_state before evts m core id state c h,
        done.states id ∙ ap (λ z. or_else z (get s.markets id)) h,
      )
