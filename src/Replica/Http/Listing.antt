-- ===== src/Replica/Http/Listing.antt =====
-- The listing of the markets, and the routes below it.
use novig_take_home.Base.{
  String, Bool, true, false, ◌≡◌, ◌≢◌, ◌↔◌, refl, List, [], ◌∷◌, some, arith, ◌==◌, string_eq,
  eq_iff, inl, inr, Option-cases, Bool-cases,
}
use novig_take_home.Base.Map.{get}
use novig_take_home.Base.Order.{str_leb_total}
use novig_take_home.Base.Sort.{sort_by, IsSortedBy, sort_by-Perm, sort_by-IsSortedBy}
use mathlib.Core.List.{Perm}
use novig_take_home.Domain.{MarketState}
use novig_take_home.Replica.Store.{Sqlite}
use novig_take_home.Replica.Service.State.{Service}
use novig_take_home.Replica.Http.{
  markets_body, market_body, by_market_id, markets, handle_markets, market_route, handle_market,
}

module _ (sql : Sqlite) (s : Service sql) where
  -- With GET the listing has status 200 and each market of the replica as often as it holds it, in
  -- the order of their identifiers.
  pub handle_markets-sorted :
      (listing : List MarketState) × (handle_markets sql true s ≡ (200, markets_body listing))
      × IsSortedBy by_market_id listing
      × Perm listing (markets sql s)
  unfolding handle_markets
  handle_markets-sorted = (
    sort_by by_market_id (markets sql s),
    refl,
    sort_by-IsSortedBy by_market_id (λ a b. str_leb_total a.market_id b.market_id) (markets sql s),
    sort_by-Perm by_market_id (markets sql s),
  )

  found_iff :
      (market_id : String) (market : MarketState)
      → (market_route sql market_id [] s ≡ (200, market_body market))
        ↔ (get s.markets market_id ≡ some market)
  unfolding market_route
  found_iff market_id market = elim (Option-cases (get s.markets market_id)) [
    | inl gone ↦ rw (gone, market_route) (λ h. cc h, λ h. cc h)
    | inr (m, found) ↦ rw (found, market_route) (λ h. cc h, λ h. cc h)
  ]

  longer_route :
      (market_id part : String) (rest : List String) (market : MarketState)
      → market_route sql market_id (part ∷ rest) s ≢ (200, market_body market)
  unfolding market_route
  longer_route market_id part (x ∷ rest) market h = cc h
  longer_route market_id part [] market h = elim (Bool-cases (part == "history")) [
    | inl history ↦ let impossible = (rw history at h) in cc impossible
    | inr other ↦ let impossible = (rw other at h) in cc impossible
  ]

  nonempty : (market_id : String) → market_id ≢ "" → (market_id == "") ≡ false
  nonempty market_id ne = ground (arith, eq_iff market_id "", ne)

  named_of :
      (market_id : String) (parts : List String) (market : MarketState)
      → handle_market sql true market_id parts s ≡ (200, market_body market)
      → ((market_id == "") ≡ false)
        × (market_route sql market_id parts s ≡ (200, market_body market))
  unfolding handle_market
  named_of market_id parts market h = elim (Bool-cases (market_id == "")) [
    | inl empty ↦ let impossible = (rw empty at h) in cc impossible
    | inr named ↦ (named, (rw named at h))
  ]

  -- A market's state is answered exactly for GET on an identifier that is not empty, with nothing
  -- after it, and that the replica has with this state.
  pub handle_market_iff :
      (is_get : Bool) (market_id : String) (parts : List String) (market : MarketState)
      → (handle_market sql is_get market_id parts s ≡ (200, market_body market)) ↔ (
          (is_get ≡ true)
          × (market_id ≢ "")
          × (parts ≡ [])
          × (get s.markets market_id ≡ some market))
  unfolding handle_market
  handle_market_iff false market_id parts market = (λ h. cc h, λ h. absurd (cc h.0))
  handle_market_iff true market_id [] market = (
    λ h.
        let (named, routed) = named_of market_id [] market h in
        (
          refl,
          ground (arith, eq_iff market_id "", named),
          refl,
          (found_iff market_id market).0 routed,
        ),
    λ (a, named, b, found). simp (nonempty market_id named) ((found_iff market_id market).1 found),
  )
  handle_market_iff true market_id (part ∷ rest) market = (
    λ h.
        absurd
          (longer_route market_id part rest market (named_of market_id (part ∷ rest) market h).1),
    λ (a, named, b, found). absurd (cc b),
  )
