-- ===== src/Clients.antt =====
-- pkg/db: the clients of the database and of redis. Gorm and go-redis are parameters; the handles that
-- they give out are values of the types `D` (gorm.DB) and `P` (sql.DB).
use Prim.Native.String.{String}
use turl.Base.{List}
use turl.Base.Int.{ℤ, pos}
use turl.Expiry.{Duration}
use turl.Action.{Action, pure, attempt, ◌>>=◌, ◌>>◌}
use turl.Config.{MySqlConfig, RedisConfig}
use turl.Cache.{Redis}

-- gorm.Open, DB.Use of the tracing plugin, DB.DB, and the settings of a sql.DB
pub record Gorm (W D P : Type 0) : Type 0 where
  pub open_db : String → Action W D
  pub use_tracing : D → Action W (Unit {0})
  pub db : D → Action W P
  pub set_max_idle_conns : P → ℤ → Action W (Unit {0})
  pub set_max_open_conns : P → ℤ → Action W (Unit {0})
  pub set_conn_max_lifetime : P → Duration → Action W (Unit {0})
  pub set_conn_max_idle_time : P → Duration → Action W (Unit {0})

-- redis.NewUniversalClient, of the addresses, the dial timeout and the idle and active connections, and
-- redisotel.InstrumentTracing
pub record RedisClients (W : Type 0) : Type 0 where
  pub new_universal_client : List String → Duration → ℤ → ℤ → Action W (Redis W)
  pub instrument_tracing : Redis W → Action W (Unit {0})

abbrev pub hour : Duration
hour = pos 3600000000000

abbrev pub minute : Duration
minute = pos 60000000000

module _ {W D P : Type 0} (g : Gorm W D P) where
  -- mysql.New
  unfoldable pub new_mysql : MySqlConfig → Action W D
  new_mysql c = do
    db ← g.open_db c.dsn
    g.use_tracing db
    sql_db ← g.db db
    g.set_max_idle_conns sql_db c.max_conn
    g.set_max_open_conns sql_db c.max_conn
    g.set_conn_max_lifetime sql_db hour
    g.set_conn_max_idle_time sql_db minute
    pure db

module _ {W : Type 0} (clients : RedisClients W) where
  -- redis.Client: a failure of the instrumentation is logged.
  unfoldable pub client : RedisConfig → Action W (Redis W)
  client c = do
    rdb ← clients.new_universal_client c.addr c.dial_timeout c.max_conn c.max_conn
    attempt (clients.instrument_tracing rdb)
    pure rdb
