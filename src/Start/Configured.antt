-- ===== src/Start/Configured.antt =====
-- The server starts as its configuration says (server/src/main.cpp).
use mathlib.Core.Path.{subst}
use qq_copy.Base.{
  ℕ, zero, suc, ◌≤◌, ◌∷◌, All, none, some, length, length-append, Bool-cases, ◌%◌, ◌^◌, ◌<◌, ◌≡◌,
  refl, ◌⊎◌, inl, inr, List, [], Option, arith,
}
use qq_copy.Base.Int.{ℤ, pos, to_signed, to_unsigned}
use qq_copy.Base.Text.{utf8}
use qq_copy.Config.{get_config_value, safe_stoi}
use qq_copy.Config.Numbers.{digits, safe_stoi-digits}
use qq_copy.Mysql.{Mysql}
use qq_copy.Database.{DatabasePool, push_created, connect, create_connection, fill_pool, open_pool}
use qq_copy.Start.{Settings, to_short, read_settings, endpoint, start_pool}

-- A value is absent and stands for the default, or it is a number in decimal digits.
abbrev pub IsNumber : List ℕ → ℕ → ℕ → Type 0
IsNumber value default_val n =
    ((value ≡ []) × (n ≡ default_val)) ⊎ ((value ≡ digits (suc n) n []) × (n < 2 ^ 31))

safe_stoi-IsNumber :
    (value : List ℕ) (default_val n : ℕ)
    → IsNumber value default_val n
    → safe_stoi value (pos default_val) ≡ pos n
unfolding safe_stoi
safe_stoi-IsNumber value default_val n (inl (absent, same)) = rw (absent, same) refl
safe_stoi-IsNumber value default_val n (inr (number, small)) =
    rw number (safe_stoi-digits n (pos default_val) small)

port_of_short : (n : ℕ) → to_unsigned (2 ^ 16) (to_short (pos n)) ≡ n % 2 ^ 16
unfolding to_short to_unsigned to_signed
port_of_short n = ground arith

-- The arguments of a call of `mysql_real_connect`: host, user, password, database and port.
abbrev pub Target : Type 0
Target = List ℕ × List ℕ × List ℕ × List ℕ × ℤ

abbrev noted : {W A : Type 0} → (W → A × W) → W × List Target → A × (W × List Target)
noted f (w, calls) = let (a, v) = f w in (a, (v, calls))

abbrev told : {W : Type 0} → (W → W) → W × List Target → W × List Target
told f (w, calls) = (f w, calls)

-- A client library that notes what it is told to connect to.
abbrev pub noting : Mysql → Mysql
noting M = record {
  World = M.World × List Target;
  mysql_init = noted M.mysql_init;
  mysql_options = λ conn charset. told (M.mysql_options conn charset);
  mysql_real_connect = λ conn host user password db port s.
      let (done, w) = M.mysql_real_connect conn host user password db port s.0 in
      (done, (w, (host, user, password, db, port) ∷ s.1));
  mysql_close = λ conn. told (M.mysql_close conn);
  mysql_ping = λ conn. noted (M.mysql_ping conn);
  mysql_stmt_init = λ conn. noted (M.mysql_stmt_init conn);
  mysql_stmt_prepare = λ stmt query. noted (M.mysql_stmt_prepare stmt query);
  mysql_stmt_bind_param = λ stmt params. noted (M.mysql_stmt_bind_param stmt params);
  mysql_stmt_execute = λ stmt. noted (M.mysql_stmt_execute stmt);
  mysql_stmt_insert_id = λ stmt. noted (M.mysql_stmt_insert_id stmt);
  mysql_stmt_result_metadata = λ stmt. noted (M.mysql_stmt_result_metadata stmt);
  mysql_stmt_bind_result = λ stmt columns. told (M.mysql_stmt_bind_result stmt columns);
  mysql_stmt_fetch = λ stmt row. noted (M.mysql_stmt_fetch stmt row);
  mysql_free_result = λ result. told (M.mysql_free_result result);
  mysql_stmt_close = λ stmt. told (M.mysql_stmt_close stmt);
}

-- Every call was told this target, and there is a call for each of these connections.
abbrev pub ConnectsTo : Target → List ℕ → List Target → Type 0
ConnectsTo target connections calls =
    All (λ call. call ≡ target) calls × (length connections ≤ length calls)

module _ (M : Mysql) (host : List ℕ) (port : ℤ) (db user pass : List ℕ) where
  abbrev pool_with : List ℕ → M.World × List Target → DatabasePool (noting M)
  pool_with queue w = record {
    host = host;
    port = port;
    db_name = db;
    user = user;
    password = pass;
    connections = queue;
    world = w;
  }

  abbrev target : Target
  target = (host, user, pass, db, port)

  connect-ConnectsTo :
      (made : Option ℕ) (queue : List ℕ) (w v : M.World) (calls : List Target)
      → ConnectsTo target queue calls
      → ConnectsTo target
          (push_created (connect (pool_with queue (v, calls)) (made, (w, calls))).0 queue)
          (connect (pool_with queue (v, calls)) (made, (w, calls))).1.1
  unfolding connect
  connect-ConnectsTo none queue w v calls h = h
  connect-ConnectsTo (some conn) queue w v calls h =
      elim (Bool-cases
        (M.mysql_real_connect conn host user pass db port
          (M.mysql_options conn (utf8 "utf8mb4") w)).0) [
            | inl done ↦ rw done ((refl, h.0), omega (arith, length-append queue (conn ∷ []), h.1))
            | inr failed ↦ rw failed ((refl, h.0), omega (arith, h.1))
          ]

  fill_pool-ConnectsTo :
      (n : ℕ) (queue : List ℕ) (w : M.World) (calls : List Target)
      → ConnectsTo target queue calls
      → ConnectsTo target
          (fill_pool n (pool_with queue (w, calls))).connections
          (fill_pool n (pool_with queue (w, calls))).world.1
  unfolding fill_pool create_connection
  fill_pool-ConnectsTo zero queue w calls h = h
  fill_pool-ConnectsTo (suc n) queue w calls h =
      let (made, w1) = M.mysql_init w in
      let (got, w2) = connect (pool_with queue (w, calls)) (made, (w1, calls)) in
      fill_pool-ConnectsTo n (push_created got queue) w2.0 w2.1
        (connect-ConnectsTo made queue w1 w calls h)

start_pool-ConnectsTo :
    (M : Mysql) (settings : Settings) (w : M.World)
    → ConnectsTo
        (
          settings.mysql_host, settings.mysql_user, settings.mysql_pass, settings.mysql_db,
          settings.mysql_port,
        )
        (start_pool (noting M) settings (w, [])).connections
        (start_pool (noting M) settings (w, [])).world.1
unfolding start_pool open_pool
start_pool-ConnectsTo M settings w =
    fill_pool-ConnectsTo M settings.mysql_host settings.mysql_port settings.mysql_db
      settings.mysql_user settings.mysql_pass 10 [] w [] (tt, omega arith)

-- Where the ports that the configuration has for the server and for the database are decimal numbers
-- below 2^31, or are absent and count as 8888 and 3306: the acceptor is bound to the server's port
-- modulo 2^16, whatever sign it has as a short; and while the pool is filled, whatever the MySQL
-- client answers, each call of `mysql_real_connect` is told the host, the user, the password, the
-- database and the port of the configuration, and there is such a call for each connection of the
-- pool.
pub server_starts_as_configured :
    (config_file : Option (List ℕ)) (n m : ℕ)
    → IsNumber (get_config_value config_file (utf8 "server") (utf8 "port")) 8888 n
    → IsNumber (get_config_value config_file (utf8 "mysql") (utf8 "port")) 3306 m
    → (M : Mysql) (w : M.World)
    → ((endpoint (read_settings config_file)).1 ≡ n % 2 ^ 16)
      × ConnectsTo
          (
            get_config_value config_file (utf8 "mysql") (utf8 "host"),
            get_config_value config_file (utf8 "mysql") (utf8 "username"),
            get_config_value config_file (utf8 "mysql") (utf8 "password"),
            get_config_value config_file (utf8 "mysql") (utf8 "database"),
            pos m,
          )
          (start_pool (noting M) (read_settings config_file) (w, [])).connections
          (start_pool (noting M) (read_settings config_file) (w, [])).world.1
unfolding read_settings endpoint
server_starts_as_configured config_file n m server_port mysql_port M w =
    let settings = read_settings config_file in
    (
      rw (safe_stoi-IsNumber _ 8888 n server_port) (port_of_short n),
      subst
          (λ port.
            ConnectsTo
              (
                settings.mysql_host, settings.mysql_user, settings.mysql_pass, settings.mysql_db,
                port,
              )
              (start_pool (noting M) settings (w, [])).connections
              (start_pool (noting M) settings (w, [])).world.1)
          (safe_stoi-IsNumber _ 3306 m mysql_port) (start_pool-ConnectsTo M settings w),
    )
