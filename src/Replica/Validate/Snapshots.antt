-- ===== src/Replica/Validate/Snapshots.antt =====
-- Which snapshots are accepted.
use novig_take_home.Base.{
  String, ◌≡◌, ◌↔◌, refl, ◌∙◌, subst, [], ◌∷◌, Option, none, some, arith, eq_iff, Option-cases, inl,
  inr, string_eq,
}
use novig_take_home.Base.Int.{ℤ, pos, ◌≤ℤ◌}
use novig_take_home.Base.Lists.{All}
use novig_take_home.Base.Errors.{ok}
use novig_take_home.Base.Map.{Map, get, insert, get-insert}
use novig_take_home.Base.Map.Keys.{NodupKeys}
use novig_take_home.Domain.{MarketState, SnapshotResponse, status_eq}
use novig_take_home.Replica.Validate.{validate_entry, validate_entries, validate_snapshot}
use novig_take_home.Replica.Validate.Accepted.{IsWellFormed, validate_market_state_iff}

validate_entry_iff :
    (market_id : String) (market : MarketState)
    → (validate_entry market_id market ≡ none)
      ↔ ((market.market_id ≡ market_id) × IsWellFormed market)
unfolding validate_entry
validate_entry_iff market_id market = ground (
  arith,
  eq_iff market_id "",
  eq_iff market.market_id market_id,
  validate_market_state_iff market,
)

abbrev pub IsEntry : String × MarketState → Type 0
IsEntry (market_id, market) = (market.market_id ≡ market_id) × IsWellFormed market

abbrev or_else {ℓ} : {A : Type ℓ} → Option A → Option A → Option A
or_else (some a) b = some a
or_else none b = b

or_else-none {ℓ} : {A : Type ℓ} (o : Option A) → or_else o none ≡ o
or_else-none none = refl
or_else-none (some a) = refl

validate_entries-All :
    (entries validated m : Map String MarketState)
    → validate_entries entries validated ≡ ok m
    → All IsEntry entries
unfolding validate_entries
validate_entries-All [] validated m h = tt
validate_entries-All ((k, v) ∷ rest) validated m h = elim (Option-cases (validate_entry k v)) [
  | inl e ↦ (
    (validate_entry_iff k v).0 e,
    validate_entries-All rest (insert k v validated) m (rw (e, validate_entries) at h),
  )
  | inr (x, e) ↦ let impossible = (rw (e, validate_entries) at h) in cc impossible
]

validate_entries_lem :
    (entries validated : Map String MarketState)
    → All IsEntry entries
    → NodupKeys entries
    → (m : Map String MarketState) × (validate_entries entries validated ≡ ok m)
      × ((k : String) → get m k ≡ or_else (get entries k) (get validated k))
unfolding validate_entries get
validate_entries_lem [] validated good nodup = (validated, refl, λ k. refl)
validate_entries_lem ((k, v) ∷ rest) validated (entry, good) (absent, nodup) =
    let (m, ran, found) = validate_entries_lem rest (insert k v validated) good nodup in
    let e = (validate_entry_iff k v).1 entry in
    (
      m,
      rw (e, validate_entries) ran,
      λ j.
          found j
          ∙ ground (
            arith,
            get-insert k j v validated,
            eq_iff k j,
            λ (same : k ≡ j). subst (λ z. get rest z ≡ none) same absent,
          ),
    )

-- What is asked of a snapshot.
abbrev pub IsAcceptable : SnapshotResponse → ℤ → Type 0
IsAcceptable snapshot min_seq =
    (pos 0 ≤ℤ snapshot.last_seq) × (min_seq ≤ℤ snapshot.last_seq) × All IsEntry snapshot.markets

pub validate_snapshot-inv :
    (snapshot : SnapshotResponse) (min_seq : ℤ) (m : Map String MarketState)
    → validate_snapshot snapshot min_seq ≡ ok m
    → (pos 0 ≤ℤ snapshot.last_seq)
      × (min_seq ≤ℤ snapshot.last_seq)
      × (validate_entries snapshot.markets [] ≡ ok m)
unfolding validate_snapshot get
validate_snapshot-inv snapshot min_seq m h = ground arith

-- A snapshot is accepted exactly when its number is not negative and not below the replica's, and
-- each of its markets is well formed and stands under its own identifier; what is returned then
-- holds the same state of each market.
pub validate_snapshot_iff :
    (snapshot : SnapshotResponse) (min_seq : ℤ)
    → NodupKeys snapshot.markets
    → ((m : Map String MarketState) × (validate_snapshot snapshot min_seq ≡ ok m)
        × ((k : String) → get m k ≡ get snapshot.markets k))
      ↔ IsAcceptable snapshot min_seq
unfolding validate_snapshot get
validate_snapshot_iff snapshot min_seq nodup = (
  λ accepted.
      let (low, least, ran) = validate_snapshot-inv snapshot min_seq accepted.0 accepted.1 in
      (low, least, validate_entries-All snapshot.markets [] accepted.0 ran),
  λ good.
      let (m, ran, found) = validate_entries_lem snapshot.markets [] good.2 nodup in
      (
        m,
        ground (arith, good.0, good.1, ran),
        λ k. found k ∙ or_else-none (get snapshot.markets k),
      ),
)
