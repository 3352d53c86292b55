-- ===== src/Redis.antt =====
-- The Redis helpers (internal/core/redis/redis.go) over the client of a server that they do not
-- implement. Expiry is not modelled: the keys written here, but for the lock, have no TTL.
use eve_industry_planner_sta.Prelude.{
  String, ◌≡◌, ◌≢◌, Bool, true, false, Option, none, some, if◌then◌else◌, str_eq,
}
use eve_industry_planner_sta.Prelude.Int.{ℤ}
use eve_industry_planner_sta.Prelude.Decimal.{format_int}
use Prim.Native.String.{◌++◌}

-- The commands in use. A write returns the store after it and whether it succeeded; SETNX also
-- whether it set the key. The laws are those of the server's documentation: a write that succeeds
-- sets its key, SETNX sets a key only if it was not there, DEL removes it, and no command, failing
-- or not, touches another key.
pub record Redis : Type 1 where
  pub Store : Type 0
  pub get : String → Store → Option String
  pub set : String → String → Store → Store × Bool
  pub set_nx : String → String → Store → Store × Option Bool
  pub del : String → Store → Store × Bool
  pub get-set : (k v : String) (s : Store) → (set k v s).1 ≡ true → get k (set k v s).0 ≡ some v
  pub get-set_ne : (k j v : String) (s : Store) → k ≢ j → get j (set k v s).0 ≡ get j s
  pub get-set_nx :
      (k v : String) (s : Store) → (set_nx k v s).1 ≡ some true → get k (set_nx k v s).0 ≡ some v
  pub get-set_nx_ne : (k j v : String) (s : Store) → k ≢ j → get j (set_nx k v s).0 ≡ get j s
  pub set_nx-held : (k v w : String) (s : Store) → get k s ≡ some w → (set_nx k v s).1 ≢ some true
  pub get-set_nx_held :
      (k v w : String) (s : Store) → get k s ≡ some w → get k (set_nx k v s).0 ≡ some w
  pub get-del : (k : String) (s : Store) → (del k s).1 ≡ true → get k (del k s).0 ≡ none
  pub get-del_ne : (k j : String) (s : Store) → k ≢ j → get j (del k s).0 ≡ get j s

module _ (r : Redis) where
  open r use {Store, get, set, set_nx, del}

  -- A value that `json.Marshal` fails on is `none`.
  unfoldable pub save_json : String → Option String → Store → Store × Bool
  save_json key none s = (s, false)
  save_json key (some b) s = set key b s

  -- One value under a prefix and a number. `url.PathEscape` leaves digits and `-` as they are.
  unfoldable pub save_item : String → ℤ → Option String → Store → Store × Bool
  save_item prefix id value s = save_json (prefix ++ format_int id) value s

  -- An empty ETag is not stored.
  unfoldable pub save_etag : String → String → Store → Store × Bool
  save_etag key etag s = if str_eq etag "" then (s, true) else set key etag s

  unfoldable pub save_last_updated : String → ℤ → Store → Store × Bool
  save_last_updated key unix_millis s = set key (format_int unix_millis) s

  -- The lock of a refresh: `some true` if it was acquired, `none` for an error.
  unfoldable pub acquire_refresh_lock : String → ℤ → Store → Store × Option Bool
  acquire_refresh_lock lock_key unix_millis s = set_nx lock_key (format_int unix_millis) s
