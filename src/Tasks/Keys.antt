-- ===== src/Tasks/Keys.antt =====
-- The keys of the two refresh tasks do not meet (internal/core/redis/redis.go,
-- internal/tasks/esi/refreshSystemIndexes.go, internal/tasks/esi/refreshAdjustedPrices.go).
use eve_industry_planner_sta.Prelude.{◌≢◌, arith, String, Option, eq_iff}
use eve_industry_planner_sta.Prelude.Decimal.{
  format_int-ne_etag, format_int-ne_last_updated, format_int-ne_refresh_lock,
}
use text.Mathlib.TextLemmas.{append_cancel_left}
use eve_industry_planner_sta.Tasks.Refresh.{Task}
use eve_industry_planner_sta.Tasks.Items.{
  SystemIndexes, AdjustedPrice, system_indexes_task, adjusted_prices_task,
}
use eve_industry_planner_sta.Tasks.Stored.{NoItem}

-- The lock, the ETag and the time have keys of their own, each its own, which no item has.
pub record KeysApart {A B : Type 0} (t : Task A B) : Type 0 where
  pub lock : NoItem t t.lock_key
  pub etag : NoItem t t.etag_key
  pub last_updated : NoItem t t.last_updated_key
  pub lock_etag : t.lock_key ≢ t.etag_key
  pub lock_updated : t.lock_key ≢ t.last_updated_key
  pub etag_updated : t.etag_key ≢ t.last_updated_key

module _ {Cost : Type 0} where
  -- The keys that the task of the system indexes uses for its lock, its ETag and its time are three
  -- different keys, and none of them is the key of an item, whatever the number of its system.
  pub system_indexes_task-KeysApart :
      (none_yet : Cost) (marshal : SystemIndexes Cost → Option String)
      → KeysApart (system_indexes_task none_yet marshal)
  system_indexes_task-KeysApart none_yet marshal = record {
    lock = λ b e.
        format_int-ne_refresh_lock b.solar_system_id
          (append_cancel_left "esi:industry_systems:" _ _ e);
    etag = λ b e.
        format_int-ne_etag b.solar_system_id (append_cancel_left "esi:industry_systems:" _ _ e);
    last_updated = λ b e.
        format_int-ne_last_updated b.solar_system_id
          (append_cancel_left "esi:industry_systems:" _ _ e);
    lock_etag = λ e.
        ground
          (arith, (eq_iff "esi:industry_systems:refresh_lock" "esi:industry_systems:etag").1 e);
    lock_updated = λ e. ground (
      arith,
      (eq_iff "esi:industry_systems:refresh_lock" "esi:industry_systems:last_updated").1 e,
    );
    etag_updated = λ e.
        ground
          (arith, (eq_iff "esi:industry_systems:etag" "esi:industry_systems:last_updated").1 e);
  }

  pub adjusted_prices_task-KeysApart :
      (marshal : AdjustedPrice Cost → Option String) → KeysApart (adjusted_prices_task marshal)
  adjusted_prices_task-KeysApart marshal = record {
    lock =
        λ b e. format_int-ne_refresh_lock b.type_id (append_cancel_left "esi:market_prices:" _ _ e);
    etag = λ b e. format_int-ne_etag b.type_id (append_cancel_left "esi:market_prices:" _ _ e);
    last_updated =
        λ b e. format_int-ne_last_updated b.type_id (append_cancel_left "esi:market_prices:" _ _ e);
    lock_etag =
        λ e. ground (arith, (eq_iff "esi:market_prices:refresh_lock" "esi:market_prices:etag").1 e);
    lock_updated = λ e.
        ground
          (arith, (eq_iff "esi:market_prices:refresh_lock" "esi:market_prices:last_updated").1 e);
    etag_updated =
        λ e. ground (arith, (eq_iff "esi:market_prices:etag" "esi:market_prices:last_updated").1 e);
  }
