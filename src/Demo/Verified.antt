-- ===== src/Demo/Verified.antt =====
-- When the script reports success: what the handlers of internal/replica/http.go have shown it.
use novig_take_home.Base.{
  String, Bool, true, ◌≡◌, ◌↔◌, refl, ap, ◌∙◌, ◌⊎◌, inl, inr, List, [], ◌∷◌, map, Option, none,
  some, Bool-cases, string_eq,
}
use novig_take_home.Base.Int.{pos}
use novig_take_home.Base.Errors.{Error, Result, ok}
use novig_take_home.Domain.{
  MarketState, MarketStatus, status_open, status_suspended, same_status_iff,
}
use novig_take_home.Replica.Store.{Sqlite}
use novig_take_home.Replica.Service.State.{Service, Status, status, market_by_id}
use novig_take_home.Replica.Service.Connection.{Reply, no_response, response}
use novig_take_home.Replica.Http.{
  Body, market_body, status_body, handle_market, handle_status, market_route, found_market,
}
use novig_take_home.Demo.{
  Turn, expired, ticked, get_json, accepts, poll, post, wait_status, wait_replica_connected,
  has_status, is_connected, default_market_id, Run, Ending, verified, check, script,
}

some_inj : (m m' : MarketState) → some m ≡ some m' → m ≡ m'
some_inj m m' h = cc h

-- A check lets the script go on exactly if what it waits for is there.
then_check :
    {P Q : Type 0} (line : String) (o : Option (Option Error)) (rest : Ending)
    → (o ≡ some none) ↔ P
    → (rest ≡ verified) ↔ Q
    → (check line o rest ≡ verified) ↔ (P × Q)
unfolding check
then_check line none rest there after = (λ h. absurd (cc h), λ h. absurd (cc (there.1 h.0)))
then_check line (some none) rest there after = (λ h. (there.0 refl, after.0 h), λ h. after.1 h.1)
then_check line (some (some e)) rest there after =
    (λ h. absurd (cc h), λ h. absurd (cc (there.1 h.0)))

all_verified : (verified ≡ verified) ↔ Unit {0}
all_verified = (λ h. tt, λ h. refl)

posted_iff : (o : Option Error) → (some o ≡ some none) ↔ (o ≡ none)
posted_iff none = (λ h. refl, λ h. refl)
posted_iff (some e) = (λ h. absurd (cc h), λ h. absurd (cc h))

module _ (sql : Sqlite) where
  -- A poll: none any more, one that gets no answer, or one that a replica in some state answers.
  pub data Poll : Type 0 where
    over : Poll
    lost : Error → Poll
    reaches : Service sql → Poll

  -- Some replica state that a poll before the end reaches has a property.
  abbrev pub Seen : (Service sql → Type 0) → List Poll → Type 0
  Seen Q [] = ⊥
  Seen Q (over ∷ _) = ⊥
  Seen Q (lost e ∷ rest) = Seen Q rest
  Seen Q (reaches s ∷ rest) = Q s ⊎ Seen Q rest

  abbrev pub Shows : MarketStatus → Service sql → Type 0
  Shows target s =
      (m : MarketState) × (market_by_id sql default_market_id s ≡ some m) × (m.status ≡ target)

  abbrev pub IsConnected : Service sql → Type 0
  IsConnected s = s.connected ≡ true

  module _ {A : Type 0} (asks : Service sql → Reply (Result A)) where
    abbrev pub turn : Poll → Turn A
    turn over = expired
    turn (lost e) = ticked (no_response e)
    turn (reaches s) = ticked (asks s)

    pub poll_iff :
        (p : A → Bool) (Q : Service sql → Type 0) (timeout : Error) (polls : List Poll)
        → ((s : Service sql) → (accepts p (get_json (asks s)) ≡ true) ↔ Q s)
        → (poll timeout p (map turn polls) ≡ some none) ↔ Seen Q polls
    unfolding poll get_json
    poll_iff p Q timeout [] each = (λ h. absurd (cc h), λ h. absurd h)
    poll_iff p Q timeout (over ∷ rest) each = (λ h. absurd (cc h), λ h. absurd h)
    poll_iff p Q timeout (lost e ∷ rest) each = poll_iff p Q timeout rest each
    poll_iff p Q timeout (reaches s ∷ rest) each =
        elim (Bool-cases (accepts p (get_json (asks s)))) [
          | inl hit ↦ (λ h. inl ((each s).0 hit), λ h. rw (hit, poll) refl)
          | inr miss ↦ (
            λ h. inr ((poll_iff p Q timeout rest each).0 (rw (miss, poll) at h)),
            λ h. elim h [
              | inl shown ↦ let x = (each s).1 shown in absurd (cc (x, miss))
              | inr later ↦ rw (miss, poll) ((poll_iff p Q timeout rest each).1 later)
            ],
          )
        ]

  module _ (decode_market : Body → Result MarketState) (decode_status : Body → Result Status) where
    abbrev pub asks_market : Service sql → Reply (Result MarketState)
    asks_market s =
        let (code, body) = handle_market sql true default_market_id [] s in
        response (pos code) "" (decode_market body)

    abbrev pub asks_status : Service sql → Reply (Result Status)
    asks_status s =
        let (code, body) = handle_status sql true s in response (pos code) "" (decode_status body)

    answered_iff :
        (target : MarketStatus) (o : Option MarketState)
        → ((m : MarketState) → decode_market (market_body m) ≡ ok m)
        → (accepts
              (has_status target)
              (get_json (response (pos (found_market o).0) "" (decode_market (found_market o).1)))
            ≡ true)
          ↔ ((m : MarketState) × (o ≡ some m) × (m.status ≡ target))
    unfolding get_json found_market
    answered_iff target none decodes = (λ h. absurd (cc h), λ (m, e, _). absurd (cc e))
    answered_iff target (some m) decodes = rw decodes (
      λ h. (m, refl, (same_status_iff m.status target).0 h),
      λ (m', e, shown).
          (same_status_iff m.status target).1
            (ap (λ (x : MarketState). x.status) (some_inj m m' e) ∙ shown),
    )

    Shows-iff :
        (target : MarketStatus) (s : Service sql)
        → ((m : MarketState) → decode_market (market_body m) ≡ ok m)
        → (accepts (has_status target) (get_json (asks_market s)) ≡ true) ↔ Shows target s
    unfolding handle_market market_route
    Shows-iff target s decodes = answered_iff target (market_by_id sql default_market_id s) decodes

    IsConnected-iff :
        (s : Service sql)
        → ((st : Status) → decode_status (status_body st) ≡ ok st)
        → (accepts is_connected (get_json (asks_status s)) ≡ true) ↔ IsConnected s
    unfolding get_json handle_status status
    IsConnected-iff s decodes = rw decodes (λ h. h, λ h. h)

    -- What the two replicas show the script, and what the core answers to its two requests.
    pub record Polls : Type 0 where
      pub connects1 : List Poll
      pub connects2 : List Poll
      pub spike : Reply {0} Unit
      pub suspends1 : List Poll
      pub suspends2 : List Poll
      pub normalize : Reply {0} Unit
      pub reopens1 : List Poll
      pub reopens2 : List Poll

    abbrev status_turns : List Poll → List (Turn Status)
    status_turns polls = map (turn asks_status) polls

    abbrev market_turns : List Poll → List (Turn MarketState)
    market_turns polls = map (turn asks_market) polls

    abbrev pub as_run : Polls → Run
    as_run r = record {
      connects1 = status_turns r.connects1;
      connects2 = status_turns r.connects2;
      spike = r.spike;
      suspends1 = market_turns r.suspends1;
      suspends2 = market_turns r.suspends2;
      normalize = r.normalize;
      reopens1 = market_turns r.reopens1;
      reopens2 = market_turns r.reopens2;
    }

    pub record HasSeen (r : Polls) : Type 0 where
      pub connected1 : Seen IsConnected r.connects1
      pub connected2 : Seen IsConnected r.connects2
      pub spiked : post r.spike ≡ none
      pub suspended1 : Seen (Shows status_suspended) r.suspends1
      pub suspended2 : Seen (Shows status_suspended) r.suspends2
      pub normalized : post r.normalize ≡ none
      pub reopened1 : Seen (Shows status_open) r.reopens1
      pub reopened2 : Seen (Shows status_open) r.reopens2

    wait_status_iff :
        (target : MarketStatus) (polls : List Poll)
        → ((m : MarketState) → decode_market (market_body m) ≡ ok m)
        → (wait_status target (market_turns polls) ≡ some none) ↔ Seen (Shows target) polls
    unfolding wait_status
    wait_status_iff target polls decodes =
        poll_iff asks_market (has_status target) (Shows target) _ polls
          (λ s. Shows-iff target s decodes)

    wait-IsConnected_iff :
        (polls : List Poll)
        → ((st : Status) → decode_status (status_body st) ≡ ok st)
        → (wait_replica_connected (status_turns polls) ≡ some none) ↔ Seen IsConnected polls
    unfolding wait_replica_connected
    wait-IsConnected_iff polls decodes =
        poll_iff asks_status is_connected IsConnected _ polls (λ s. IsConnected-iff s decodes)

    -- encoding/json decodes what the replicas' handlers encode. The script reports success exactly
    -- if each of its waits, before the end of its time, has reached its replica in a fitting state,
    -- which are in this order: both connected; after a spike that the core accepts, the default
    -- market suspended at both; and after a normalization that it accepts, open at both.
    pub script-verified_iff :
        (r : Polls)
        → ((m : MarketState) → decode_market (market_body m) ≡ ok m)
        → ((st : Status) → decode_status (status_body st) ≡ ok st)
        → (script (as_run r) ≡ verified) ↔ HasSeen r
    unfolding script
    script-verified_iff r market connection =
        let chain = then_check _ _ _ (wait-IsConnected_iff r.connects1 connection) (
          then_check _ _ _ (wait-IsConnected_iff r.connects2 connection) (
            then_check _ _ _ (posted_iff (post r.spike)) (
              then_check _ _ _ (wait_status_iff status_suspended r.suspends1 market) (
                then_check _ _ _ (wait_status_iff status_suspended r.suspends2 market) (
                  then_check _ _ _ (posted_iff (post r.normalize)) (
                    then_check _ _ _ (wait_status_iff status_open r.reopens1 market) (
                      then_check _ _ _ (wait_status_iff status_open r.reopens2 market)
                        all_verified))))))) in
        (
          λ h.
              let (a, (b, (c, (d, (e, (f, (g, (i, _)))))))) = chain.0 h in
              record {
                connected1 = a;
                connected2 = b;
                spiked = c;
                suspended1 = d;
                suspended2 = e;
                normalized = f;
                reopened1 = g;
                reopened2 = i;
              },
          λ h. chain.1 (
            h.connected1,
            (
              h.connected2,
              (
                h.spiked,
                (h.suspended1, (h.suspended2, (h.normalized, (h.reopened1, (h.reopened2, tt))))),
              ),
            ),
          ),
        )
