-- ===== src/Esi/Client.antt =====
-- The state of `ESIClient` and its registry of limiters
-- (internal/core/esi/rate_limited_client.go). Limiters are shared by pointer: `store` is the heap of
-- all limiters ever made, and a pointer is a position in it. A mutex of an unknown path is named by
-- the order in which it was made. The rates that are only handed to `rate.Limiter` are not kept.
pub mod WellFormed
use eve_industry_planner_sta.Prelude.{
  ℕ, ◌+◌, String, Bool, true, false, not, List, [], ◌∷◌, ◌++◌, Option, none, some, ◌&&◌, length,
  get_elem?, set, if◌then◌else◌, str_eq,
}
use eve_industry_planner_sta.Prelude.Int.{ℤ, pos, ltb_ℤ, eqb_ℤ}
use eve_industry_planner_sta.Prelude.Dict.{Dict, lookup, insert}
use eve_industry_planner_sta.Esi.Bucket.{GroupLimiter, window, minute}

pub record EsiClient : Type 0 where
  pub base_url : String
  pub store : List GroupLimiter
  pub limiters : Dict ℕ
  pub def_lim : ℕ
  pub path_to_group : Dict String
  pub unknown_groups : Dict ℕ
  pub mutexes : ℕ
  pub test_mode : Bool
  pub test_mode_path : String
  pub test_mode_scenario : String
  pub test_mode_retry_after : ℤ

-- A fresh limiter, as each of the three constructors in the code builds it.
abbrev pub new_limiter : String → ℤ → ℤ → GroupLimiter
new_limiter name token_limit now = record {
  name = name;
  token_limit = token_limit;
  token_used = pos 0;
  consumptions = [];
  last_update = now;
  retry_after = pos 0;
  window_duration = window;
}

-- The environment variables of the test mode, with `time.ParseDuration`.
pub record TestEnv : Type 0 where
  pub mode : String
  pub path : String
  pub scenario : String
  pub retry_after : String
  pub parse_duration : String → Option ℤ

test_retry_after : TestEnv → ℤ
test_retry_after env =
    if str_eq env.mode "true"
    then if str_eq env.retry_after ""
      then minute
      else elim (env.parse_duration env.retry_after) [ none ↦ minute | some d ↦ d ]
    else minute

unfoldable pub new_esi_client : String → TestEnv → ℤ → EsiClient
unfolding test_retry_after
new_esi_client base_url env now = record {
  base_url = base_url;
  store = new_limiter "default" (pos 1000) now ∷ [];
  limiters = [];
  def_lim = 0;
  path_to_group = [];
  unknown_groups = [];
  mutexes = 0;
  test_mode = str_eq env.mode "true";
  test_mode_path = env.path;
  test_mode_scenario = env.scenario;
  test_mode_retry_after = test_retry_after env;
}

-- The limiter behind a pointer. Every pointer of the program is in the store (Client/WellFormed);
-- what stands here for any other number is never read.
unfoldable pub limiter_at : EsiClient → ℕ → GroupLimiter
limiter_at c p = elim (get_elem? c.store p) [ none ↦ new_limiter "" (pos 0) (pos 0) | some gl ↦ gl ]

-- A write through a pointer.
unfoldable pub write_limiter : ℕ → GroupLimiter → EsiClient → EsiClient
write_limiter p gl c = record c { store = set c.store p gl }

-- A new limiter under a group name, as `c.limiters[name] = &GroupLimiter{...}`.
unfoldable pub register_limiter : String → GroupLimiter → EsiClient → EsiClient
register_limiter name gl c = record c {
  store = c.store ++ gl ∷ [];
  limiters = insert name (length c.store) c.limiters;
}

unfoldable pub map_path : String → String → EsiClient → EsiClient
map_path path group c = record c { path_to_group = insert path group c.path_to_group }

unfoldable pub add_group_limiter : String → ℤ → EsiClient → EsiClient
add_group_limiter group now c = register_limiter group (new_limiter group (pos 1000) now) c

-- The limiter of a path, and whether its group is known.
unfoldable pub get_limiter_for_path : String → EsiClient → ℕ × Bool
get_limiter_for_path path c = elim (lookup path c.path_to_group) [
  | none ↦ (c.def_lim, false)
  | some group ↦ elim (lookup group c.limiters) [ none ↦ (c.def_lim, false) | some p ↦ (p, true) ]
]

-- `if tokenLimit > 0 && tokenLimit != limiter.tokenLimit { limiter.tokenLimit = tokenLimit }`
unfoldable pub update_token_limit : ℤ → GroupLimiter → GroupLimiter
update_token_limit token_limit gl =
    if ltb_ℤ (pos 0) token_limit && not (eqb_ℤ token_limit gl.token_limit)
    then record gl { token_limit = token_limit }
    else gl

unfoldable pub get_or_create_group_limiter : String → String → ℤ → ℤ → EsiClient → ℕ × EsiClient
get_or_create_group_limiter group path token_limit now c = elim (lookup group c.limiters) [
  | some p ↦
      (p, map_path path group (write_limiter p (update_token_limit token_limit (limiter_at c p)) c))
  | none ↦
      let limit = if eqb_ℤ token_limit (pos 0) then pos 1000 else token_limit in
      (length c.store, map_path path group (register_limiter group (new_limiter group limit now) c))
]

-- The mutex of an unknown path: the one made for it before, or a new one.
unfoldable pub get_mutex_for_unknown_path : String → EsiClient → ℕ × EsiClient
get_mutex_for_unknown_path path c = elim (lookup path c.unknown_groups) [
  | some m ↦ (m, c)
  | none ↦ (
    c.mutexes,
    record c { unknown_groups = insert path c.mutexes c.unknown_groups; mutexes = c.mutexes + 1 },
  )
]
