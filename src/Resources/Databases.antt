-- ===== src/Resources/Databases.antt =====
-- The databases: DatabaseConfig and RedisConfig of pkg/config, pkg/repository/mysql.go, the MySQL resource
-- of internal/resource and pkg/redisclient/client.go. Connections are parameters; `none` is a panic.
-- Durations are in nanoseconds.
use go_video_transcode_servi.Common.{
  second, positive_or, ◌*◌, ℤ, pos, leb_ℤ, eq_ℤ, Text, codes, is_empty, itoa_ℤ, Bool, [], ◌++◌,
  Option, none, some, Error, wrap, Result, ok, err, Op, if◌then◌else◌,
}

pub record DatabaseConfig : Type 0 where
  pub host : Text
  pub port : ℤ
  pub username : Text
  pub password : Text
  pub database : Text
  pub charset : Text
  pub parse_time : Bool
  pub loc : Text
  pub max_idle_conns : ℤ
  pub max_open_conns : ℤ
  pub conn_max_lifetime : ℤ

get_dsn : DatabaseConfig → Text
get_dsn c =
    c.username
    ++ (codes ":"
        ++ (c.password
            ++ (codes "@tcp("
                ++ (c.host
                    ++ (codes ":"
                        ++ (itoa_ℤ c.port
                            ++ (codes ")/"
                                ++ (c.database
                                    ++ (codes "?charset="
                                        ++ (c.charset ++ codes "&parseTime=True&loc=Local"))))))))))

-- The limits of the pool of connections.
pub record Pool : Type 0 where
  pub max_open : ℤ
  pub max_idle : ℤ
  pub max_lifetime : ℤ

unfoldable pool_of : DatabaseConfig → Pool
pool_of c = record {
  max_open = positive_or c.max_open_conns (pos 100);
  max_idle = positive_or c.max_idle_conns (pos 10);
  max_lifetime = positive_or c.conn_max_lifetime (pos (3600 * second));
}

-- gorm.Open, and the *sql.DB of what it gives.
pub record Gorm (D : Type 0) : Type 0 where
  pub open_dsn : Text → Result Error D
  pub sql_db : D → Result Error (Pool → D)

pooled : {D : Type 0} → DatabaseConfig → Result Error (Pool → D) → Result Error D
unfolding pool_of
pooled cfg (err e) = err (wrap (codes "failed to get underlying sql.DB") e)
pooled cfg (ok set) = ok (set (pool_of cfg))

connected : {D : Type 0} → Gorm D → DatabaseConfig → Result Error D → Result Error D
unfolding pooled
connected gorm cfg (err e) = err (wrap (codes "failed to connect to database") e)
connected gorm cfg (ok db) = pooled cfg (gorm.sql_db db)

init_self_db : {D : Type 0} → Gorm D → DatabaseConfig → Result Error D
unfolding connected
init_self_db gorm cfg = connected gorm cfg (gorm.open_dsn (get_dsn cfg))

abbrev initialised : {D : Type 0} → Result Error D → Result Error D
initialised (err e) = err (wrap (codes "failed to initialize database") e)
initialised (ok db) = ok db

pub new_database : {D : Type 0} → Gorm D → DatabaseConfig → Result Error D
unfolding init_self_db
new_database gorm cfg = initialised (init_self_db gorm cfg)

abbrev kept : {D : Type 0} → Result Error D → Option D
kept (err e) = none
kept (ok db) = some db

-- MySqlResource.MustOpen; a connection that is there is kept.
unfoldable mysql_must_open : {D : Type 0} → Gorm D → Option DatabaseConfig → Option D → Option D
unfolding new_database
mysql_must_open gorm cfg (some db) = some db
mysql_must_open gorm none none = none
mysql_must_open gorm (some cfg) none = kept (new_database gorm cfg)

record RedisConfig : Type 0 where
  pub host : Text
  pub port : ℤ
  pub password : Text
  pub db : ℤ
  pub pool_size : ℤ
  pub min_idle_conns : ℤ
  pub dial_timeout : ℤ
  pub read_timeout : ℤ
  pub write_timeout : ℤ
  pub enable_tls : Bool

get_redis_addr : RedisConfig → Text
get_redis_addr c = c.host ++ (codes ":" ++ itoa_ℤ c.port)

pick_duration : ℤ → ℤ → ℤ
pick_duration v fallback = if leb_ℤ v (pos 0) then fallback else v

-- redis.Options, where an option that is not set is empty or 0.
record RedisOptions : Type 0 where
  pub addr : Text
  pub password : Text
  pub db : ℤ
  pub pool_size : ℤ
  pub min_idle_conns : ℤ
  pub dial_timeout : ℤ
  pub read_timeout : ℤ
  pub write_timeout : ℤ
  pub tls : Bool

unfoldable redis_options : RedisConfig → RedisOptions
unfolding get_redis_addr pick_duration
redis_options cfg = record {
  addr = get_redis_addr cfg;
  password = if is_empty cfg.password then [] else cfg.password;
  db = if eq_ℤ cfg.db (pos 0) then pos 0 else cfg.db;
  pool_size = positive_or cfg.pool_size (pos 0);
  min_idle_conns = positive_or cfg.min_idle_conns (pos 0);
  dial_timeout = pick_duration cfg.dial_timeout (pos (5 * second));
  read_timeout = pick_duration cfg.read_timeout (pos (3 * second));
  write_timeout = pick_duration cfg.write_timeout (pos (3 * second));
  tls = cfg.enable_tls;
}

-- The client is closed if it does not answer; `ping` is the error of Ping.
abbrev answered_ping :
    {S : Type 0} → Option Error → (S → S) → RedisOptions → Op S (Result Error RedisOptions)
answered_ping (some e) close opts s = (err e, close s)
answered_ping none close opts s = (ok opts, s)

new_redis :
    {S : Type 0}
    → (RedisOptions → Op S (Option Error))
    → (S → S)
    → RedisConfig
    → Op S (Result Error RedisOptions)
unfolding redis_options
new_redis ping close cfg s =
    let (failed, s') = ping (redis_options cfg) s in
    answered_ping failed close (redis_options cfg) s'
