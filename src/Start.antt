-- ===== src/Start.antt =====
-- server/src/main.cpp: what main reads from the configuration, and what it makes of it.
pub mod Configured
use qq_copy.Base.{ℕ, ◌^◌, List, [], ◌∷◌, Option}
use qq_copy.Base.Int.{ℤ, pos, to_signed, to_unsigned}
use qq_copy.Base.Text.{utf8}
use qq_copy.Config.{get_config_value, safe_stoi}
use qq_copy.Mysql.{Mysql}
use qq_copy.Database.{DatabasePool, open_pool}
use qq_copy.Redis.{Redis}
use qq_copy.Cache.{CacheManager, open_cache}

-- The variables of main.
pub record Settings : Type 0 where
  pub host : List ℕ
  pub port : ℤ
  pub mysql_host : List ℕ
  pub mysql_port : ℤ
  pub mysql_db : List ℕ
  pub mysql_user : List ℕ
  pub mysql_pass : List ℕ
  pub redis_host : List ℕ
  pub redis_port : ℤ

-- `static_cast<short>`
unfoldable pub to_short : ℤ → ℤ
to_short n = to_signed (2 ^ 15) (to_unsigned (2 ^ 16) n)

unfoldable pub read_settings : Option (List ℕ) → Settings
unfolding to_short
read_settings config_file = record {
  host = get_config_value config_file (utf8 "server") (utf8 "host");
  port =
      to_short (safe_stoi (get_config_value config_file (utf8 "server") (utf8 "port")) (pos 8888));
  mysql_host = get_config_value config_file (utf8 "mysql") (utf8 "host");
  mysql_port = safe_stoi (get_config_value config_file (utf8 "mysql") (utf8 "port")) (pos 3306);
  mysql_db = get_config_value config_file (utf8 "mysql") (utf8 "database");
  mysql_user = get_config_value config_file (utf8 "mysql") (utf8 "username");
  mysql_pass = get_config_value config_file (utf8 "mysql") (utf8 "password");
  redis_host = get_config_value config_file (utf8 "redis") (utf8 "host");
  redis_port = safe_stoi (get_config_value config_file (utf8 "redis") (utf8 "port")) (pos 6379);
}

-- `host.empty() ? "0.0.0.0" : host`
unfoldable pub listen_address : List ℕ → List ℕ
listen_address [] = utf8 "0.0.0.0"
listen_address (c ∷ host) = c ∷ host

-- What the acceptor is bound to; the port of an endpoint is an unsigned short.
unfoldable pub endpoint : Settings → List ℕ × ℕ
unfolding listen_address
endpoint settings = (listen_address settings.host, to_unsigned (2 ^ 16) settings.port)

-- The pool has its default size.
unfoldable pub start_pool : (M : Mysql) → Settings → M.World → DatabasePool M
start_pool M settings w =
    open_pool settings.mysql_host settings.mysql_port settings.mysql_db settings.mysql_user
      settings.mysql_pass (pos 10) w

unfoldable pub start_cache : (R : Redis) → Settings → R.World → CacheManager R
start_cache R settings w = open_cache settings.redis_host settings.redis_port (pos 0) w
