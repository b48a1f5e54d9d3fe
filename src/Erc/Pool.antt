-- ===== src/Erc/Pool.antt =====
-- getPool of apps/api/src/modules/erc/erc.repository.ts: what the pool offers to a journey.
use veervrat_app.Base.{
  ℕ, Bool, ◌&&◌, not, List, [], ◌∷◌, ◌==◌, is_id, some_of, filter_by, order_by, if◌then◌else◌,
}
use veervrat_app.Model.{ErcType, challenge, erc_type_eq, PoolItem, JourneyErcItem, Journey, Db}

-- The pool. `journeyWeakness` is the list of weakness ids of the journey's row.
abbrev pub weaknesses_of : ℕ → List Journey → List ℕ
weaknesses_of id [] = []
weaknesses_of id (j ∷ journeys) = if j.id == id then j.weakness_ids else weaknesses_of id journeys

abbrev pub contains : List ℕ → ℕ → Bool
contains ids id = some_of (λ x. x == id) ids

-- chosen from the pool for this journey, deactivated or not
abbrev pub is_selected : ErcType → ℕ → List JourneyErcItem → ℕ → Bool
is_selected kind journey_id items pool_id =
    some_of
      (λ i.
        erc_type_eq i.kind kind
        && i.journey_id == journey_id
        && not i.is_custom
        && is_id i.pool_id pool_id)
      items

abbrev pub pool_key : ErcType → PoolItem → ℕ
pool_key challenge p = p.created_at
pool_key _ p = p.sort_order

unfoldable pub offered : ErcType → ℕ → List ℕ → List JourneyErcItem → PoolItem → Bool
offered kind journey_id weakness_ids items p =
    erc_type_eq p.kind kind
    && some_of (contains weakness_ids) p.weakness_ids
    && not (is_selected kind journey_id items p.id)

abbrev pub pool_for : ErcType → ℕ → List ℕ → Db → List PoolItem
pool_for kind journey_id [] db = []
pool_for kind journey_id weakness_ids db =
    order_by (pool_key kind) (filter_by (offered kind journey_id weakness_ids db.items) db.pool)

unfoldable pub get_pool : ℕ → ErcType → Db → List PoolItem
get_pool journey_id kind db = pool_for kind journey_id (weaknesses_of journey_id db.journeys) db
