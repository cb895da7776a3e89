-- ===== src/Core/Http/Answers.antt =====
-- Which requests succeed, and what a request does to the core.
use novig_take_home.Base.{
  ℕ, zero, suc, ◌<◌, ◌≤◌, String, ◌≡◌, ◌≢◌, ◌↔◌, refl, List, ◌⊎◌, inl, inr, arith, ◌==◌, string_eq,
  eq_iff, if◌then◌else◌, Bool-cases,
}
use novig_take_home.Base.Int.{ℤ}
use novig_take_home.Base.Errors.{Result, ok, err}
use novig_take_home.Domain.{ReplicationEvent, SignalInput}
use novig_take_home.Domain.Json.{Json}
use novig_take_home.Core.EventStore.{Sqlite}
use novig_take_home.Core.ReplicaHealth.{ReplicaHeartbeat}
use novig_take_home.Core.Service.State.{Service}
use novig_take_home.Core.Service.Consistency.{Consistent}
use novig_take_home.Core.Service.History.{
  ingest-Consistent, clear-Consistent, heartbeat-Consistent, statuses-Consistent,
}
use novig_take_home.Core.Http.{
  Method, method_get, method_post, other_method, Request, get_snapshot, get_statuses, post_event,
  post_heartbeat, post_scenario, get_health, spike_signal, spike_loop, run_spike_scenario,
  scenario_answer, run_scenario, handle_heartbeat, handle_event, handle_statuses, handle,
}

abbrev IsDecoded : Result SignalInput → Type 0
IsDecoded (err _) = ⊥
IsDecoded (ok _) = Unit

abbrev IsHeartbeat : Result ReplicaHeartbeat → Type 0
IsHeartbeat (err _) = ⊥
IsHeartbeat (ok input) = input.replica_id ≢ ""

-- What is asked of a request.
abbrev pub IsAccepted : Request → Type 0
IsAccepted get_snapshot = Unit
IsAccepted get_health = Unit
IsAccepted (get_statuses method) = method ≡ method_get
IsAccepted (post_event method body) = (method ≡ method_post) × IsDecoded body
IsAccepted (post_heartbeat method body) = (method ≡ method_post) × IsHeartbeat body
IsAccepted (post_scenario method name market_id) =
    (method ≡ method_post) × ((name ≡ "spike") ⊎ (name ≡ "normalize"))

wrong_method :
    (method : Method) (P : Type 0)
    → method ≢ method_post
    → (405 < 400) ↔ ((method ≡ method_post) × P)
wrong_method method P ne = (λ h. absurd (omega (arith, h)), λ h. absurd (ne h.0))

get_not_post : method_get ≢ method_post
get_not_post h = cc h

other_not_post : (m : String) → other_method m ≢ method_post
other_not_post m h = cc h

module _ (sql : Sqlite) (now_ms : ℤ) (clock : ℕ → ℤ) (s : Service sql) where
  -- The status is below 400 exactly for these: snapshots and health; statuses with GET; and with
  -- POST, a signal that decodes, a heartbeat that decodes and has an identifier, and the two
  -- scenarios.
  pub handle_iff : (r : Request) → ((handle sql r now_ms clock s).0.status < 400) ↔ IsAccepted r
  unfolding handle handle_event handle_statuses handle_heartbeat run_scenario scenario_answer
  handle_iff get_snapshot = (λ h. tt, λ h. omega arith)
  handle_iff get_health = (λ h. tt, λ h. omega arith)
  handle_iff (get_statuses method_get) = (λ h. refl, λ h. omega arith)
  handle_iff (get_statuses method_post) = (λ h. absurd (omega (arith, h)), λ h. cc h)
  handle_iff (get_statuses (other_method m)) = (λ h. absurd (omega (arith, h)), λ h. cc h)
  handle_iff (post_event method_get b) = wrong_method method_get (IsDecoded b) get_not_post
  handle_iff (post_event (other_method m) b) =
      wrong_method (other_method m) (IsDecoded b) (other_not_post m)
  handle_iff (post_event method_post (err e)) = (λ h. absurd (omega (arith, h)), λ h. absurd h.1)
  handle_iff (post_event method_post (ok input)) = (λ h. (refl, tt), λ h. omega arith)
  handle_iff (post_heartbeat method_get b) = wrong_method method_get (IsHeartbeat b) get_not_post
  handle_iff (post_heartbeat (other_method m) b) =
      wrong_method (other_method m) (IsHeartbeat b) (other_not_post m)
  handle_iff (post_heartbeat method_post (err e)) =
      (λ h. absurd (omega (arith, h)), λ h. absurd h.1)
  handle_iff (post_heartbeat method_post (ok input)) = ground (arith, eq_iff input.replica_id "")
  handle_iff (post_scenario method_get n i) =
      wrong_method method_get ((n ≡ "spike") ⊎ (n ≡ "normalize")) get_not_post
  handle_iff (post_scenario (other_method m) n i) =
      wrong_method (other_method m) ((n ≡ "spike") ⊎ (n ≡ "normalize")) (other_not_post m)
  handle_iff (post_scenario method_post n i) =
      ground (arith, eq_iff n "spike", eq_iff n "normalize")

  -- A request whose status is 400 or above leaves the core exactly as it was.
  pub handle-error :
      (r : Request)
      → 400 ≤ (handle sql r now_ms clock s).0.status
      → (handle sql r now_ms clock s).1 ≡ s
  unfolding handle handle_event handle_statuses handle_heartbeat run_scenario scenario_answer
  handle-error get_snapshot h = refl
  handle-error get_health h = refl
  handle-error (get_statuses method_get) h = absurd (omega (arith, h))
  handle-error (get_statuses method_post) h = refl
  handle-error (get_statuses (other_method m)) h = refl
  handle-error (post_event method_get b) h = refl
  handle-error (post_event (other_method m) b) h = refl
  handle-error (post_event method_post (err e)) h = refl
  handle-error (post_event method_post (ok input)) h = absurd (omega (arith, h))
  handle-error (post_heartbeat method_get b) h = refl
  handle-error (post_heartbeat (other_method m) b) h = refl
  handle-error (post_heartbeat method_post (err e)) h = refl
  handle-error (post_heartbeat method_post (ok input)) h = ground (arith, h)
  handle-error (post_scenario method_get n i) h = refl
  handle-error (post_scenario (other_method m) n i) h = refl
  handle-error (post_scenario method_post n i) h = ground (arith, h)

module _ (sql : Sqlite) (json : Json) (before evts : List ReplicationEvent) (n : ℕ) where
  spike-Consistent :
      (i : ℕ) (market_id : String) (now_ms : ℤ) (clock : ℕ → ℤ) (s : Service sql)
      → Consistent sql json before evts n s
      → Consistent sql json before evts n (spike_loop sql i market_id now_ms clock s)
  unfolding spike_loop
  spike-Consistent zero market_id now_ms clock s c = c
  spike-Consistent (suc i) market_id now_ms clock s c =
      spike-Consistent i market_id now_ms clock _
        (ingest-Consistent sql json before evts n (spike_signal market_id now_ms) (clock i) s c)

  scenario-Consistent :
      (name market_id : String) (now_ms : ℤ) (clock : ℕ → ℤ) (s : Service sql)
      → Consistent sql json before evts n s
      → Consistent sql json before evts n (run_scenario sql name market_id now_ms clock s).1
  unfolding run_scenario scenario_answer run_spike_scenario
  scenario-Consistent name market_id now_ms clock s c = elim (Bool-cases (name == "spike")) [
    | inl spike ↦ simp (spike) (spike-Consistent 24 market_id now_ms clock s c)
    | inr not_spike ↦ elim (Bool-cases (name == "normalize")) [
      | inl normal ↦
          simp (not_spike, normal) (clear-Consistent sql json before evts n market_id now_ms s c)
      | inr neither ↦ simp (not_spike, neither) c
    ]
  ]

  -- No request, the scenarios included, writes an event or breaks the agreement of the log, the
  -- markets and the subscribers' channels.
  pub handle-Consistent :
      (r : Request) (now_ms : ℤ) (clock : ℕ → ℤ) (s : Service sql)
      → Consistent sql json before evts n s
      → Consistent sql json before evts n (handle sql r now_ms clock s).1
  unfolding handle handle_event handle_statuses handle_heartbeat
  handle-Consistent get_snapshot now_ms clock s c = c
  handle-Consistent get_health now_ms clock s c = c
  handle-Consistent (get_statuses method_get) now_ms clock s c =
      statuses-Consistent sql json before evts n now_ms s c
  handle-Consistent (get_statuses method_post) now_ms clock s c = c
  handle-Consistent (get_statuses (other_method m)) now_ms clock s c = c
  handle-Consistent (post_event method_get b) now_ms clock s c = c
  handle-Consistent (post_event (other_method m) b) now_ms clock s c = c
  handle-Consistent (post_event method_post (err e)) now_ms clock s c = c
  handle-Consistent (post_event method_post (ok input)) now_ms clock s c =
      ingest-Consistent sql json before evts n input now_ms s c
  handle-Consistent (post_heartbeat method_get b) now_ms clock s c = c
  handle-Consistent (post_heartbeat (other_method m) b) now_ms clock s c = c
  handle-Consistent (post_heartbeat method_post (err e)) now_ms clock s c = c
  handle-Consistent (post_heartbeat method_post (ok input)) now_ms clock s c =
      elim (Bool-cases (input.replica_id == "")) [
        | inl empty ↦ simp (empty) c
        | inr named ↦ simp (named) (heartbeat-Consistent sql json before evts n input now_ms s c)
      ]
  handle-Consistent (post_scenario method_get name i) now_ms clock s c = c
  handle-Consistent (post_scenario (other_method m) name i) now_ms clock s c = c
  handle-Consistent (post_scenario method_post name i) now_ms clock s c =
      scenario-Consistent name (if i == "" then s.cfg.default_market_id else i) now_ms clock s c
