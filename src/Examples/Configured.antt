-- ===== src/Examples/Configured.antt =====
-- Runs of the theorems on the configuration and the start of the server.
use qq_copy.Base.{ℕ, ◌%◌, ◌^◌, ◌≡◌, refl, inl, inr, text_beq, some, List, [], ◌∷◌, ◌++◌, arith}
use qq_copy.Base.Int.{pos}
use qq_copy.Base.Text.{utf8}
use qq_copy.Config.{
  trim, get_config_value, config_loop, read_line, value_or_skipped, split_at_equals, drop_blank,
  drop_blank_end, keep_last, is_blank, last_is, file_lines, push_char,
}
use qq_copy.Config.Trim.{AllBlank, StartsFilled, EndsFilled, trim_is_exact}
use qq_copy.Config.Entries.{first_value, file_entries, get_config_value-entries}
use qq_copy.Start.{read_settings, endpoint, start_pool}
use qq_copy.Start.Configured.{noting, ConnectsTo, server_starts_as_configured}
use qq_copy.Examples.Stored.{users, one_user}
use qq_copy.Examples.{anna, pw}

abbrev spaced : List ℕ
spaced = 32 ∷ b'p' ∷ 32 ∷ b'w' ∷ 13 ∷ []

trim_is_exact_example :
    (before after : List ℕ) × AllBlank before
    × AllBlank after
    × (spaced ≡ before ++ (trim spaced ++ after))
    × StartsFilled (trim spaced)
    × EndsFilled (trim spaced)
trim_is_exact_example = trim_is_exact spaced

-- The section "pw" with the line "anna = pw".
abbrev config_file : List ℕ
config_file = b'[' ∷ (pw ++ b']' ∷ 10 ∷ (anna ++ 32 ∷ b'=' ∷ 32 ∷ (pw ++ 10 ∷ [])))

get_config_value-entries_example :
    get_config_value (some config_file) pw anna ≡ first_value pw anna (file_entries config_file)
get_config_value-entries_example = get_config_value-entries config_file pw anna

-- The section "server" with the line "port=80".
abbrev server_file : List ℕ
server_file = b'[' ∷ (utf8 "server" ++ b']' ∷ 10 ∷ (utf8 "port" ++ b'=' ∷ (utf8 "80" ++ 10 ∷ [])))

server_port : get_config_value (some server_file) (utf8 "server") (utf8 "port") ≡ b'8' ∷ b'0' ∷ []
unfolding get_config_value config_loop read_line value_or_skipped split_at_equals trim drop_blank
    drop_blank_end keep_last is_blank last_is file_lines push_char text_beq utf8
server_port = refl

mysql_port : get_config_value (some server_file) (utf8 "mysql") (utf8 "port") ≡ []
unfolding get_config_value config_loop read_line value_or_skipped split_at_equals trim drop_blank
    drop_blank_end keep_last is_blank last_is file_lines push_char text_beq utf8
mysql_port = refl

server_starts_as_configured_example :
    ((endpoint (read_settings (some server_file))).1 ≡ 80 % 2 ^ 16)
    × ConnectsTo
        (
          get_config_value (some server_file) (utf8 "mysql") (utf8 "host"),
          get_config_value (some server_file) (utf8 "mysql") (utf8 "username"),
          get_config_value (some server_file) (utf8 "mysql") (utf8 "password"),
          get_config_value (some server_file) (utf8 "mysql") (utf8 "database"),
          pos 3306,
        )
        (start_pool (noting users) (read_settings (some server_file)) (one_user, [])).connections
        (start_pool (noting users) (read_settings (some server_file)) (one_user, [])).world.1
server_starts_as_configured_example =
    server_starts_as_configured (some server_file) 80 3306 (inr (server_port, omega arith))
      (inl (mysql_port, refl)) users one_user
