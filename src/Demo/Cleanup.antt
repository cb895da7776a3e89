-- ===== src/Demo/Cleanup.antt =====
-- What `startReplica` leaves behind.
use Prim.Native.String.{◌++◌ as ◌<>◌}
use novig_take_home.Base.{
  String, ◌≡◌, refl, none, some, false, ◌==◌, string_eq, Bool-cases, inl, inr, sym, ap,
}
use novig_take_home.Base.Errors.{Error, Result, ok, err, Result-cases, ok_injective}
use novig_take_home.Base.Database.{Driver, Opened, failed, opened, IsSound}
use novig_take_home.Replica.Store.{Sqlite, get_checkpoint}
use novig_take_home.Replica.Store.Opening.{
  effect, ready, in_memory_dsn, new_store, new_store-IsSound,
}
use novig_take_home.Replica.Service.State.{Service, ServiceConfig, with_defaults, new_service}
use novig_take_home.Demo.{
  start_http_server, Started, not_started, running, served, store_left, with_service, start_replica,
  replica_config,
}

module _ (sql : Sqlite) (d : Driver sql.Db effect) where
  -- After an error there is no database open; and a replica that runs has its configuration, with
  -- the defaults, and the address that was listened on.
  abbrev pub IsClean : String → ServiceConfig → Result String → Started sql d → Type 0
  IsClean dsn cfg listening (not_started e none) = (x : Error) × (d.open_dsn dsn ≡ err x)
  IsClean dsn cfg listening (not_started e (some db)) = d.is_open db ≡ false
  IsClean dsn cfg listening (running s base_url) =
      (addr : String) × (listening ≡ ok addr)
      × (base_url ≡ "http://" <> addr)
      × (s.cfg ≡ with_defaults cfg)

  new_service-cfg :
      (db : sql.Db) (cfg : ServiceConfig) (s : Service sql)
      → new_service sql db cfg ≡ ok s
      → s.cfg ≡ with_defaults cfg
  unfolding new_service with_defaults
  new_service-cfg db cfg s h = elim (Bool-cases (cfg.core_base_url == "")) [
    | inl missing ↦ let x = (rw (missing, new_service) at h) in cc x
    | inr given ↦ elim (Result-cases (get_checkpoint sql db).0) [
      | inl (seq, e) ↦
          let x = (rw (given, e, new_service) at h) in
          sym (ap (λ (z : Service sql). z.cfg) (ok_injective _ _ x))
      | inr (x, e) ↦ let y = (rw (given, e, new_service) at h) in cc y
    ]
  ]

  served-IsClean :
      (dsn : String) (cfg : ServiceConfig) (listening : Result String) (s : Service sql)
      → s.cfg ≡ with_defaults cfg
      → IsClean dsn cfg listening (served sql d (start_http_server listening) s)
  unfolding served
  served-IsClean dsn cfg (err e) s h = d.close_closes s.store
  served-IsClean dsn cfg (ok addr) s h = (addr, refl, refl, h)

  with_service-IsClean :
      (dsn : String) (id core_url : String) (listening : Result String) (db : sql.Db)
      → let cfg = replica_config id core_url in
        IsClean dsn cfg listening
          (with_service sql d listening core_url db (new_service sql db cfg))
  unfolding with_service
  with_service-IsClean dsn id core_url listening db =
      let cfg = replica_config id core_url in
      elim (Result-cases (new_service sql db cfg)) [
        | inl (s, e) ↦
            rw (e, with_service) (served-IsClean dsn cfg listening s (new_service-cfg db cfg s e))
        | inr (x, e) ↦ rw (e, with_service) (d.close_closes (store_left sql d core_url db))
      ]

  from_store :
      (path_escape : String → String) (id core_url : String) (listening : Result String)
      (store : Opened sql.Db)
      → new_store d (in_memory_dsn path_escape id) ≡ store
      → IsSound d ready (in_memory_dsn path_escape id) store
      → IsClean
          (in_memory_dsn path_escape id)
          (replica_config id core_url)
          listening
          (start_replica sql d path_escape id core_url listening)
  unfolding start_replica
  from_store path_escape id core_url listening (failed e none) h sound = rw (h, start_replica) sound
  from_store path_escape id core_url listening (failed e (some db)) h sound =
      rw (h, start_replica) sound.0
  from_store path_escape id core_url listening (opened db) h sound =
      rw (h, start_replica)
        (with_service-IsClean (in_memory_dsn path_escape id) id core_url listening db)

  -- Whichever step fails, the database of a replica that is not started is closed, or was never
  -- opened; and one that runs has the configuration with its defaults and the address that was
  -- listened on.
  pub start_replica-IsClean :
      (path_escape : String → String) (id core_url : String) (listening : Result String)
      → IsClean
          (in_memory_dsn path_escape id)
          (replica_config id core_url)
          listening
          (start_replica sql d path_escape id core_url listening)
  start_replica-IsClean path_escape id core_url listening =
      from_store path_escape id core_url listening _ refl
        (new_store-IsSound d (in_memory_dsn path_escape id))
