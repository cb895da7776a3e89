-- ===== src/Core/Stream/Steps.antt =====
-- The steps of a handler keep what it has written in line with the log, and so does the log's
-- growth.
use novig_take_home.Base.{
  ℕ, suc, ◌+◌, ◌≤◌, ◌<◌, ◌^◌, ◌≡◌, refl, sym, ap, ◌∙◌, subst, List, [], ◌∷◌, ◌++◌, Option, some,
  arith, inl, inr, ◌⊎◌, Option-cases, append_assoc,
}
use novig_take_home.Base.Int.{ℤ, pos}
use novig_take_home.Base.Lists.{get_elem?}
use novig_take_home.Base.Errors.{Result, ok}
use novig_take_home.Domain.{ReplicationEvent}
use novig_take_home.Domain.Json.{Json}
use novig_take_home.Core.EventStore.{Sqlite, select_from, events_from_seq}
use novig_take_home.Core.EventStore.Log.{Sequenced, Sequenced-length, events_from_seq_lem}
use novig_take_home.Core.Hub.{
  Channel, SseHub, receive, Received, event, drained, waits, take_oldest, unsubscribe,
}
use novig_take_home.Core.Hub.Invariant.{unsubscribe-Inv}
use novig_take_home.Core.Hub.Schedule.{receive-Inv}
use novig_take_home.Core.Hub.Contents.{Buffered, IsPart, receive-Buffered, unsubscribe-Buffered}
use novig_take_home.Core.Service.State.{Service}
use novig_take_home.Core.Service.Consistency.{Consistent}
use novig_take_home.Core.Service.History.{hub-Consistent, store-Consistent}
use novig_take_home.Core.Stream.{
  Response, Ready, request_done, heartbeat, from_channel, Phase, opening, looping, filling,
  returning, closed, Stream, at_phase, continue, on_received, write_text, keepalive, start_stream,
  fill_gap, on_ready, read_then, leave, step_in, step,
}
use novig_take_home.Core.Stream.Since.{since, since-append, since-all, select_from-since}
use novig_take_home.Core.Stream.Writing.{payloads, write_text-data}
use novig_take_home.Core.Stream.Serving.{
  IsIn, Served, Holds, Fine, Serving-conn, continue-Fine, on_event-Fine, fill_gap-Fine,
  start_stream-Fine,
}

-- What a handler receives is an event of the log.
take_oldest-IsIn :
    (rows buffer : List ReplicationEvent) (c : Channel) (evt : ReplicationEvent)
    → c.buffer ≡ buffer
    → IsPart rows buffer
    → (take_oldest c).0 ≡ event evt
    → IsIn rows evt
take_oldest-IsIn rows [] c evt e part h = absurd (ground (arith, e))
take_oldest-IsIn rows (x ∷ rest) c evt e (pre, post, joined) h =
    let same : x ≡ evt = ground (arith, e) in
    (pre, rest ++ post, subst (λ z. rows ≡ pre ++ z ∷ (rest ++ post)) same joined)

receive-IsIn :
    (rows : List ReplicationEvent) (ch : ℕ) (h : SseHub) (evt : ReplicationEvent)
    → Buffered rows h
    → (receive ch h).0 ≡ event evt
    → IsIn rows evt
unfolding receive
receive-IsIn rows ch h evt b got = elim (Option-cases (get_elem? h.channels ch)) [
  | inl missing ↦ absurd (ground (arith, missing))
  | inr (c, at) ↦
      take_oldest-IsIn rows c.buffer c evt refl (b.any ch c at) (rw (at, receive) at got)
]

module _ (http : Response) (f n : ℕ) (rows : List ReplicationEvent) (log : Sequenced 0 rows n)
    (room : n + 1 < 2 ^ 63) where
  on_received-Fine :
      (got : Received) (st : Stream http)
      → ((evt : ReplicationEvent) → got ≡ event evt → IsIn rows evt)
      → Fine http f n rows st
      → Fine http f n rows (on_received http got st)
  unfolding on_received
  on_received-Fine (event evt) st inside v =
      on_event-Fine http f n rows log room evt st (inside evt refl) v
  on_received-Fine drained st inside v = (v.0, tt)
  on_received-Fine waits st inside v = v

  keep_alive-Served :
      (st : Stream http)
      → Served http f n rows st
      → Served http f n rows (write_text http keepalive st).1
  unfolding payloads write_text
  keep_alive-Served st (j, v) = (
    j,
    Serving-conn http f n rows j st.conn _ st.next_seq (write_text-data http keepalive st refl).1 v,
  )

-- The log's growth.
module _ (http : Response) (f n n' : ℕ) (rows new : List ReplicationEvent)
    (more : Sequenced n new n') where
  same_since :
      (j : ℕ) → f ≤ j → (j ≡ f) ⊎ (j ≤ n) → since (pos (suc j)) new ≡ since (pos (suc f)) new
  same_since j le (inl e) = ap (λ z. since (pos (suc z)) new) e
  same_since j le (inr low) =
      since-all j n n' new low more ∙ sym (since-all f n n' new (omega arith) more)

  Holds-grow : (phase : Phase) → Holds http f n rows phase → Holds http f n' (rows ++ new) phase
  Holds-grow opening h = tt
  Holds-grow looping h = tt
  Holds-grow returning h = tt
  Holds-grow closed h = tt
  Holds-grow (filling evt) (pre, post, e) =
      (pre, post ++ new, ap (λ z. z ++ new) e ∙ append_assoc pre (evt ∷ post) new)

  pub Fine-grow : (st : Stream http) → Fine http f n rows st → Fine http f n' (rows ++ new) st
  Fine-grow st ((j, v), holds) = (
    (
      j,
      record {
        sent = v.sent;
        encoded = v.encoded;
        number = v.number;
        joined =
            ap (λ z. v.sent ++ z) (since-append (pos (suc j)) rows new)
            ∙ sym (append_assoc v.sent (since (pos (suc j)) rows) (since (pos (suc j)) new))
            ∙ ap (λ z. z ++ since (pos (suc j)) new) v.joined
            ∙ ap (λ z. since (pos (suc f)) rows ++ z) (same_since j v.ahead v.reach)
            ∙ sym (since-append (pos (suc f)) rows new);
        ahead = v.ahead;
        reach = elim v.reach [
          | inl e ↦ inl e
          | inr low ↦ inr (omega (arith, Sequenced-length n n' new more))
        ];
      },
    ),
    Holds-grow st.phase holds,
  )

leave_lem :
    (http : Response) (sql : Sqlite) (st : Stream http) (s : Service sql) (hub : SseHub)
    → unsubscribe st.id s.hub ≡ some hub
    → leave http sql st s ≡ some (at_phase http closed st, record s { hub = hub })
unfolding leave
leave_lem http sql st s hub done = rw (done, leave) refl

module _ (http : Response) (sql : Sqlite) (json : Json) (f : ℕ)
    (before evts : List ReplicationEvent) (n : ℕ) (room : n + 1 < 2 ^ 63) where
  -- What a step of the handler leaves: the core is consistent with the same log, and the handler
  -- is fine with it.
  pub record Stepped (r : Option (Stream http × Service sql)) : Type 0 where
    pub stream : Stream http
    pub service : Service sql
    pub returns : r ≡ some (stream, service)
    pub consistent : Consistent sql json before evts n service
    pub fine : Fine http f n (sql.rows service.store) stream

  read_then-Stepped :
      (then_do : Result (List ReplicationEvent) → Stream http → Stream http) (st : Stream http)
      (s : Service sql)
      → Consistent sql json before evts n s
      → Served http f n (sql.rows s.store) st
      → ((found : Result (List ReplicationEvent))
          → ((out : List ReplicationEvent)
              → found ≡ ok out
              → out ≡ since st.next_seq (sql.rows s.store))
          → Fine http f n (sql.rows s.store) (then_do found st))
      → Stepped (some (read_then http sql then_do st s))
  read_then-Stepped then_do st s c (j, v) fine =
      let (law, kept) = events_from_seq_lem sql st.next_seq s.store in
      let seen : (k : ℤ)
          → k ≡ pos (suc j)
          → select_from k (sql.rows s.store) ≡ since k (sql.rows s.store) =
        λ k e.
          subst (λ z. select_from z (sql.rows s.store) ≡ since z (sql.rows s.store)) (sym e)
            (select_from-since j 0 n (sql.rows s.store) c.inv.log) in
      record {
        stream = then_do (events_from_seq sql st.next_seq s.store).0 st;
        service = record s { store = (events_from_seq sql st.next_seq s.store).1 };
        returns = refl;
        consistent = store-Consistent sql json before evts n s c _ kept;
        fine =
            subst (λ z. Fine http f n z (then_do (events_from_seq sql st.next_seq s.store).0 st))
              (sym kept)
              (fine (events_from_seq sql st.next_seq s.store).0
                (λ out e. law out e ∙ seen st.next_seq v.number));
      }

  step_in-Stepped :
      (phase : Phase) (ready : Ready) (st : Stream http) (s : Service sql)
      → Consistent sql json before evts n s
      → Served http f n (sql.rows s.store) st
      → Holds http f n (sql.rows s.store) phase
      → st.phase ≡ phase
      → Stepped (step_in http sql phase ready st s)
  unfolding step_in on_ready
  step_in-Stepped opening ready st s c v h e =
      read_then-Stepped (start_stream http) st s c v
        (λ found law. start_stream-Fine http f n (sql.rows s.store) c.inv.log room found st law v)
  step_in-Stepped looping request_done st s c v h e = record {
    stream = at_phase http returning st;
    service = s;
    returns = refl;
    consistent = c;
    fine = (v, tt);
  }
  step_in-Stepped looping heartbeat st s c v h e = record {
    stream = continue http (write_text http keepalive st);
    service = s;
    returns = refl;
    consistent = c;
    fine =
        continue-Fine http f n (sql.rows s.store) c.inv.log room (write_text http keepalive st)
          (keep_alive-Served http f n (sql.rows s.store) c.inv.log room st v);
  }
  step_in-Stepped looping from_channel st s c v h e =
      let r = receive st.channel s.hub in
      record {
        stream = on_received http r.0 st;
        service = record s { hub = r.1 };
        returns = refl;
        consistent =
            hub-Consistent sql json before evts n s c r.1 (receive-Inv st.channel s.hub c.inv.hub)
              (receive-Buffered (sql.rows s.store) s.hub c.inv.contents st.channel);
        fine =
            on_received-Fine http f n (sql.rows s.store) c.inv.log room r.0 st
              (λ evt got. receive-IsIn (sql.rows s.store) st.channel s.hub evt c.inv.contents got)
              (v, rw e tt);
      }
  step_in-Stepped (filling evt) ready st s c v h e =
      read_then-Stepped (fill_gap http evt) st s c v
        (λ found law. fill_gap-Fine http f n (sql.rows s.store) c.inv.log room evt found st h law v)
  step_in-Stepped returning ready st s c v h e =
      let (hub, done, live) = unsubscribe-Inv st.id s.hub c.inv.hub in
      record {
        stream = at_phase http closed st;
        service = record s { hub = hub };
        returns = leave_lem http sql st s hub done;
        consistent =
            hub-Consistent sql json before evts n s c hub live (
              unsubscribe-Buffered (sql.rows s.store) s.hub c.inv.contents st.id hub c.inv.hub
                done);
        fine = (v, tt);
      }
  step_in-Stepped closed ready st s c v h e = record {
    stream = st;
    service = s;
    returns = refl;
    consistent = c;
    fine = (v, rw e tt);
  }

  -- A step returns, whatever it finds ready.
  pub step-Stepped :
      (ready : Ready) (st : Stream http) (s : Service sql)
      → Consistent sql json before evts n s
      → Fine http f n (sql.rows s.store) st
      → Stepped (step http sql ready st s)
  unfolding step
  step-Stepped ready st s c (v, h) = step_in-Stepped st.phase ready st s c v h refl
