-- ===== src/Config.antt =====
-- server/src/main.cpp: the reading of the configuration. The file is given as its bytes, or as `none`
-- where it can not be opened. Bytes compare as `char`s do.
pub mod Trim
pub mod Entries
pub mod Numbers
use qq_copy.Base.{
  ℕ, zero, suc, ◌+◌, ◌-◌, ◌*◌, ◌^◌, List, [], ◌∷◌, length, take, Bool, false, Option, none, some,
  ltb, leb, ◌==◌, ◌&&◌, ◌||◌, if◌then◌else◌, text_beq,
}
use qq_copy.Base.Int.{ℤ, pos, negsuc}

-- A character of " \t\r\n".
unfoldable pub is_blank : ℕ → Bool
is_blank c = (c == 32) || (c == 9) || (c == 13) || (c == 10)

-- From `find_first_not_of` on.
unfoldable pub drop_blank : List ℕ → List ℕ
unfolding is_blank
drop_blank [] = []
drop_blank (c ∷ str) = if is_blank c then drop_blank str else c ∷ str

-- Up to `find_last_not_of`.
unfoldable pub keep_last : ℕ → List ℕ → List ℕ
unfolding is_blank
keep_last c [] = if is_blank c then [] else c ∷ []
keep_last c (d ∷ rest) = c ∷ d ∷ rest

unfoldable pub drop_blank_end : List ℕ → List ℕ
unfolding keep_last
drop_blank_end [] = []
drop_blank_end (c ∷ str) = keep_last c (drop_blank_end str)

unfoldable pub trim : List ℕ → List ℕ
unfolding drop_blank drop_blank_end
trim str = drop_blank_end (drop_blank str)

-- The lines that `std::getline` gives. A last line without a newline counts unless it is empty.
unfoldable pub push_char : ℕ → List (List ℕ) → List (List ℕ)
push_char c [] = (c ∷ []) ∷ []
push_char c (line ∷ lines) = (c ∷ line) ∷ lines

unfoldable pub file_lines : List ℕ → List (List ℕ)
unfolding push_char
file_lines [] = []
file_lines (c ∷ file) =
    let rest = file_lines file in if c == 10 then [] ∷ rest else push_char c rest

-- `line.find('=')`: what is before it and behind it.
unfoldable pub split_at_equals : List ℕ → Option (List ℕ × List ℕ)
split_at_equals [] = none
split_at_equals (c ∷ str) =
    let rest = split_at_equals str in
    if c == b'='
    then some ([], str)
    else elim rest [ none ↦ none | some (before, after) ↦ some (c ∷ before, after) ]

unfoldable pub last_is : ℕ → List ℕ → Bool
last_is c [] = false
last_is c (d ∷ []) = c == d
last_is c (d ∷ e ∷ str) = last_is c (e ∷ str)

-- What a trimmed line is.
pub data Line : Type 0 where
  skipped : Line
  section_line : List ℕ → Line
  value_line : List ℕ → List ℕ → Line

unfoldable pub value_or_skipped : List ℕ → Line
unfolding split_at_equals trim
value_or_skipped line = elim (split_at_equals line) [
  | none ↦ skipped
  | some (before, after) ↦ value_line (trim before) (trim after)
]

unfoldable pub read_line : List ℕ → Line
unfolding value_or_skipped last_is
read_line [] = skipped
read_line (c ∷ line) =
    if (c == b';') || (c == b'#')
    then skipped
    else if (c == b'[') && last_is b']' (c ∷ line)
    then section_line (take (length (c ∷ line) - 2) line)
    else value_or_skipped (c ∷ line)

-- The loop over the lines, with the current section.
unfoldable pub config_loop : List ℕ → List ℕ → List ℕ → List (List ℕ) → List ℕ
unfolding read_line
config_loop section key current [] = []
config_loop section key current (line ∷ lines) = elim (read_line (trim line)) [
  | skipped ↦ config_loop section key current lines
  | section_line name ↦ config_loop section key name lines
  | value_line k v ↦
      let rest = config_loop section key current lines in
      if text_beq current section && text_beq k key then v else rest
]

unfoldable pub get_config_value : Option (List ℕ) → List ℕ → List ℕ → List ℕ
unfolding config_loop file_lines
get_config_value none section key = []
get_config_value (some file) section key = config_loop section key [] (file_lines file)

-- `std::isspace` of the C locale, which `std::stoi` skips.
unfoldable pub is_space : ℕ → Bool
is_space c = (c == 32) || (leb 9 c && leb c 13)

unfoldable pub skip_space : List ℕ → List ℕ
unfolding is_space
skip_space [] = []
skip_space (c ∷ str) = if is_space c then skip_space str else c ∷ str

unfoldable pub is_digit : ℕ → Bool
is_digit c = leb b'0' c && leb c b'9'

-- The value of the digits on top of what was read, and what is behind them.
unfoldable pub read_digits : ℕ → List ℕ → ℕ × List ℕ
unfolding is_digit
read_digits value [] = (value, [])
read_digits value (c ∷ str) =
    let more = read_digits (value * 10 + (c - b'0')) str in
    if is_digit c then more else (value, c ∷ str)

-- A number with at least one digit.
unfoldable pub read_number : List ℕ → Option (ℕ × List ℕ)
unfolding read_digits
read_number [] = none
read_number (c ∷ str) = if is_digit c then some (read_digits 0 (c ∷ str)) else none

-- `std::stoi`: `none` where it throws, and else the value and what it has not read.
unfoldable pub in_range : ℤ → List ℕ → Option (ℤ × List ℕ)
in_range (pos n) rest = if ltb n (2 ^ 31) then some (pos n, rest) else none
in_range (negsuc n) rest = if ltb n (2 ^ 31) then some (negsuc n, rest) else none

unfoldable pub negative : ℕ → ℤ
negative zero = pos 0
negative (suc n) = negsuc n

unfoldable pub stoi_signed : (ℕ → ℤ) → List ℕ → Option (ℤ × List ℕ)
unfolding read_number in_range
stoi_signed sign str = elim (read_number str) [
  | none ↦ none
  | some (n, rest) ↦ in_range (sign n) rest
]

unfoldable pub stoi_skipped : List ℕ → Option (ℤ × List ℕ)
unfolding stoi_signed negative
stoi_skipped [] = none
stoi_skipped (c ∷ str) =
    if c == b'-'
    then stoi_signed negative str
    else if c == b'+'
    then stoi_signed pos str
    else stoi_signed pos (c ∷ str)

unfoldable pub stoi : List ℕ → Option (ℤ × List ℕ)
unfolding stoi_skipped skip_space
stoi str = stoi_skipped (skip_space str)

-- A value counts if the whole string was read.
unfoldable pub whole_value : ℤ → Option (ℤ × List ℕ) → ℤ
whole_value default_val none = default_val
whole_value default_val (some (val, [])) = val
whole_value default_val (some (val, c ∷ rest)) = default_val

unfoldable pub safe_stoi : List ℕ → ℤ → ℤ
unfolding stoi whole_value
safe_stoi [] default_val = default_val
safe_stoi (c ∷ str) default_val = whole_value default_val (stoi (c ∷ str))
