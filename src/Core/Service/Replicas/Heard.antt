-- ===== src/Core/Service/Replicas/Heard.antt =====
-- What the core holds of a replica that it has heard of.
use novig_take_home.Base.{
  nonempty_test, String, ◌≡◌, refl, sym, ap, ◌∙◌, [], ◌∷◌, some, Option-cases, inl, inr, ◌==◌,
  string_eq, eq_iff, true, Bool-cases, arith, subst, ◌≢◌,
}
use novig_take_home.Base.Int.{ℤ}
use novig_take_home.Base.Map.{Map, get, insert, get-insert, get-insert_self}
use mathlib.Core.List.{Mem, mem-cons_self, mem-cons_of_mem}
use mathlib.Core.List.Perm
use novig_take_home.Core.EventStore.{Sqlite}
use novig_take_home.Core.ReplicaHealth.{
  ReplicaHeartbeat, ReplicaHealthRecord, ReplicaHealthClass, unclassified, healthy, stale, offline,
  same_class,
}
use novig_take_home.Core.Service.State.{Service, ServiceConfig}
use novig_take_home.Core.Service.Replicas.{
  update_replica_health, refresh_each, refresh_replica_health, record_replica_heartbeat,
  replica_statuses, statuses_of, status_of, health_at, clamp_zero, or_zero,
}
use novig_take_home.Core.Service.Tick.{update_lem, refresh_lem}
use novig_take_home.Core.Service.Replicas.Listing.{replica_statuses-sorted}

same_class_sound : (a b : ReplicaHealthClass) → same_class a b ≡ true → a ≡ b
same_class_sound unclassified unclassified h = refl
same_class_sound unclassified healthy h = cc h
same_class_sound unclassified stale h = cc h
same_class_sound unclassified offline h = cc h
same_class_sound healthy unclassified h = cc h
same_class_sound healthy healthy h = refl
same_class_sound healthy stale h = cc h
same_class_sound healthy offline h = cc h
same_class_sound stale unclassified h = cc h
same_class_sound stale healthy h = cc h
same_class_sound stale stale h = refl
same_class_sound stale offline h = cc h
same_class_sound offline unclassified h = cc h
same_class_sound offline healthy h = cc h
same_class_sound offline stale h = cc h
same_class_sound offline offline h = refl

-- A record as it is after its class was refreshed.
abbrev pub refreshed : ServiceConfig → ℤ → ReplicaHealthRecord → ReplicaHealthRecord
refreshed cfg now_ms r = record r { health = health_at cfg now_ms r }

module _ (sql : Sqlite) (now_ms : ℤ) where
  -- An update is that of the record, if there is one.
  update_self :
      (id : String) (s : Service sql) (r : ReplicaHealthRecord)
      → get s.replicas id ≡ some r
      → get (update_replica_health sql id now_ms s).replicas id ≡ some (refreshed s.cfg now_ms r)
  unfolding update_replica_health
  update_self id s r h =
      let next = health_at s.cfg now_ms r in
      elim (Bool-cases (same_class r.health next)) [
        | inl same ↦
            rw (h, update_replica_health, same)
              (h ∙ ap (λ x. some (record r { health = x })) (same_class_sound r.health next same))
        | inr other ↦
            rw (h, update_replica_health, other)
              (get-insert_self id (refreshed s.cfg now_ms r) s.replicas)
      ]

  update-other :
      (k id : String) (s : Service sql)
      → k ≢ id
      → get (update_replica_health sql k now_ms s).replicas id ≡ get s.replicas id
  unfolding update_replica_health
  update-other k id s ne = elim (Option-cases (get s.replicas k)) [
    | inl e ↦ rw (e, update_replica_health) refl
    | inr (r, e) ↦ elim (Bool-cases (same_class r.health (health_at s.cfg now_ms r))) [
      | inl same ↦ rw (e, update_replica_health, same) refl
      | inr other ↦
          rw (e, update_replica_health, other)
            (ground (arith, get-insert k id (refreshed s.cfg now_ms r) s.replicas, eq_iff k id))
    ]
  ]

  update-cfg : (id : String) (s : Service sql) → (update_replica_health sql id now_ms s).cfg ≡ s.cfg
  update-cfg id s = ap (λ (x : Service sql). x.cfg) (update_lem sql id now_ms s)

  -- Another update of the same time changes nothing.
  update-again :
      (k id : String) (s : Service sql) (r : ReplicaHealthRecord)
      → get s.replicas id ≡ some (refreshed s.cfg now_ms r)
      → get (update_replica_health sql k now_ms s).replicas id ≡ some (refreshed s.cfg now_ms r)
  unfolding health_at
  update-again k id s r h = elim (Bool-cases (k == id)) [
    | inl same ↦
        subst
          (λ j.
            get (update_replica_health sql j now_ms s).replicas id
            ≡ some (refreshed s.cfg now_ms r))
          (sym ((eq_iff k id).0 same)) (update_self id s (refreshed s.cfg now_ms r) h)
    | inr differs ↦ update-other k id s (λ e. let x = (eq_iff k id).1 e in cc (x, differs)) ∙ h
  ]

  refresh_each-again :
      (m : Map String ReplicaHealthRecord) (id : String) (s : Service sql) (r : ReplicaHealthRecord)
      → get s.replicas id ≡ some (refreshed s.cfg now_ms r)
      → get (refresh_each sql m now_ms s).replicas id ≡ some (refreshed s.cfg now_ms r)
  unfolding refresh_each
  refresh_each-again [] id s r h = h
  refresh_each-again ((k, x) ∷ m) id s r h =
      let same = ap (λ c. some (refreshed c now_ms r)) (update-cfg k s) in
      refresh_each-again m id (update_replica_health sql k now_ms s) r
        (update-again k id s r h ∙ sym same)
      ∙ same

  refresh_each-reaches :
      (m : Map String ReplicaHealthRecord) (id : String) (s : Service sql)
      (x r : ReplicaHealthRecord)
      → get m id ≡ some x
      → get s.replicas id ≡ some r
      → get (refresh_each sql m now_ms s).replicas id ≡ some (refreshed s.cfg now_ms r)
  unfolding refresh_each get
  refresh_each-reaches [] id s x r held h = cc held
  refresh_each-reaches ((k, y) ∷ m) id s x r held h =
      let same = ap (λ c. some (refreshed c now_ms r)) (update-cfg k s) in
      let s' = update_replica_health sql k now_ms s in
      elim (Bool-cases (k == id)) [
        | inl hit ↦
            refresh_each-again m id s' r (
              subst
                (λ j.
                  get (update_replica_health sql j now_ms s).replicas id
                  ≡ some (refreshed s.cfg now_ms r))
                (sym ((eq_iff k id).0 hit)) (update_self id s r h)
              ∙ sym same)
            ∙ same
        | inr miss ↦
            refresh_each-reaches m id s' x r (rw miss at held)
              (update-other k id s (λ e. let z = (eq_iff k id).1 e in cc (z, miss)) ∙ h)
            ∙ same
      ]

  refresh-reaches :
      (id : String) (s : Service sql) (r : ReplicaHealthRecord)
      → get s.replicas id ≡ some r
      → get (refresh_replica_health sql now_ms s).replicas id ≡ some (refreshed s.cfg now_ms r)
  unfolding refresh_replica_health
  refresh-reaches id s r h = refresh_each-reaches s.replicas id s r r h h

some_inj : (x r : ReplicaHealthRecord) → some x ≡ some r → x ≡ r
some_inj x r h = cc h

statuses_of-Mem :
    (last : ℤ) (m : Map String ReplicaHealthRecord) (id : String) (r : ReplicaHealthRecord)
    → get m id ≡ some r
    → Mem (status_of last id r) (statuses_of last m)
unfolding statuses_of get
statuses_of-Mem last [] id r h = cc h
statuses_of-Mem last ((k, x) ∷ m) id r h = elim (Bool-cases (k == id)) [
  | inl hit ↦
      let same = (rw hit at h) in
      subst (λ j. Mem (status_of last j r) (status_of last k x ∷ statuses_of last m))
        ((eq_iff k id).0 hit)
        (subst (λ y. Mem (status_of last k y) (status_of last k x ∷ statuses_of last m))
          (some_inj x r same) mem-cons_self)
  | inr miss ↦ mem-cons_of_mem _ (statuses_of-Mem last m id r (rw miss at h))
]

-- A listing has each record that is held, with its class at that time.
pub listed_of_held :
    (sql : Sqlite) (now_ms : ℤ) (s : Service sql) (id : String) (r : ReplicaHealthRecord)
    → get s.replicas id ≡ some r
    → Mem
        (status_of s.last_seq id (refreshed s.cfg now_ms r))
        (replica_statuses sql now_ms s).0.replicas
unfolding replica_statuses
listed_of_held sql now_ms s id r h =
    let s' = refresh_replica_health sql now_ms s in
    let last = ap (λ (x : Service sql). x.last_seq) (refresh_lem sql now_ms s) in
    (Perm.mem_iff (replica_statuses-sorted sql now_ms s).1).1 (
      subst
        (λ z. Mem (status_of z id (refreshed s.cfg now_ms r)) (statuses_of s'.last_seq s'.replicas))
        last
        (statuses_of-Mem s'.last_seq s'.replicas id (refreshed s.cfg now_ms r)
          (refresh-reaches sql now_ms id s r h)))

-- What the core keeps of a heartbeat.
abbrev pub kept : ReplicaHeartbeat → ReplicaHeartbeat
kept input = record input {
  last_applied_seq = clamp_zero input.last_applied_seq;
  core_last_seq = clamp_zero input.core_last_seq;
}

-- What it holds of the replica then, at a time.
abbrev pub heard : ServiceConfig → ReplicaHeartbeat → ℤ → ℤ → ReplicaHealthRecord
heard cfg input seen_ms now_ms =
    refreshed cfg now_ms
      (record { heartbeat = kept input; last_seen_at_ms = seen_ms; health = unclassified })

record_replica_heartbeat-held :
    (sql : Sqlite) (input : ReplicaHeartbeat) (now_ms : ℤ) (s : Service sql)
    → input.replica_id ≢ ""
    → get (record_replica_heartbeat sql input now_ms s).replicas input.replica_id
      ≡ some (heard s.cfg input now_ms now_ms)
unfolding record_replica_heartbeat health_at
record_replica_heartbeat-held sql input now_ms s named =
    let id = input.replica_id in
    let r = record (or_zero (get s.replicas id)) {
      heartbeat = kept input;
      last_seen_at_ms = now_ms;
    } in
    rw (nonempty_test id named, record_replica_heartbeat)
      (update_self sql now_ms id (record s { replicas = insert id r s.replicas }) r
        (get-insert_self id r s.replicas))

record-last_seq :
    (sql : Sqlite) (input : ReplicaHeartbeat) (now_ms : ℤ) (s : Service sql)
    → (((record_replica_heartbeat sql input now_ms s).last_seq ≡ s.last_seq)
        × ((record_replica_heartbeat sql input now_ms s).cfg ≡ s.cfg))
unfolding record_replica_heartbeat
record-last_seq sql input now_ms s = elim (Bool-cases (input.replica_id == "")) [
  | inl unnamed ↦ rw (unnamed, record_replica_heartbeat) (refl, refl)
  | inr named ↦
      let id = input.replica_id in
      let r = record (or_zero (get s.replicas id)) {
        heartbeat = kept input;
        last_seen_at_ms = now_ms;
      } in
      let s1 = record s { replicas = insert id r s.replicas } in
      rw (named, record_replica_heartbeat)
        (
          ap (λ (x : Service sql). x.last_seq) (update_lem sql id now_ms s1),
          update-cfg sql now_ms id s1,
        )
]

-- A listing after a heartbeat has the status that follows from it.
pub listed_of_heard :
    (sql : Sqlite) (input : ReplicaHeartbeat) (seen_ms now_ms : ℤ) (s : Service sql)
    → input.replica_id ≢ ""
    → Mem
        (status_of s.last_seq input.replica_id (heard s.cfg input seen_ms now_ms))
        (replica_statuses sql now_ms (record_replica_heartbeat sql input seen_ms s)).0.replicas
unfolding health_at
listed_of_heard sql input seen_ms now_ms s named =
    let s' = record_replica_heartbeat sql input seen_ms s in
    let (last, cfg) = record-last_seq sql input seen_ms s in
    subst
      (λ z.
        Mem (status_of z input.replica_id (heard s.cfg input seen_ms now_ms))
          (replica_statuses sql now_ms s').0.replicas)
      last
      (subst
        (λ c.
          Mem (status_of s'.last_seq input.replica_id (heard c input seen_ms now_ms))
            (replica_statuses sql now_ms s').0.replicas)
        cfg
        (listed_of_held sql now_ms s' input.replica_id (heard s.cfg input seen_ms seen_ms)
          (record_replica_heartbeat-held sql input seen_ms s named)))
