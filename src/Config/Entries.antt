-- ===== src/Config/Entries.antt =====
-- A configuration as a list of entries: the first entry of a section and a key is the value.
use qq_copy.Base.{ℕ, ◌≡◌, refl, List, [], ◌∷◌, ◌&&◌, some, if◌then◌else◌, text_beq}
use qq_copy.Config.{
  trim, Line, skipped, section_line, value_line, read_line, config_loop, file_lines,
  get_config_value,
}

pub record Entry : Type 0 where
  pub section : List ℕ
  pub key : List ℕ
  pub value : List ℕ

-- The entries of the lines from a section on.
abbrev pub line_entries : List ℕ → List Line → List Entry
line_entries current [] = []
line_entries current (skipped ∷ lines) = line_entries current lines
line_entries current (section_line name ∷ lines) = line_entries name lines
line_entries current (value_line k v ∷ lines) =
    record { section = current; key = k; value = v } ∷ line_entries current lines

abbrev pub read_lines : List (List ℕ) → List Line
read_lines [] = []
read_lines (line ∷ lines) = read_line (trim line) ∷ read_lines lines

abbrev pub first_value : List ℕ → List ℕ → List Entry → List ℕ
first_value section key [] = []
first_value section key (entry ∷ entries) =
    let rest = first_value section key entries in
    if text_beq entry.section section && text_beq entry.key key then entry.value else rest

abbrev pub file_entries : List ℕ → List Entry
file_entries file = line_entries [] (read_lines (file_lines file))

config_loop-entries :
    (section key current : List ℕ) (lines : List (List ℕ))
    → config_loop section key current lines
      ≡ first_value section key (line_entries current (read_lines lines))
unfolding config_loop
config_loop-entries section key current [] = refl
config_loop-entries section key current (line ∷ lines) =
    by_line (read_line (trim line)) refl (λ c. config_loop-entries section key c lines)
  where
    by_line :
        (l : Line)
        → read_line (trim line) ≡ l
        → ((c : List ℕ)
            → config_loop section key c lines
              ≡ first_value section key (line_entries c (read_lines lines)))
        → config_loop section key current (line ∷ lines)
          ≡ first_value section key (line_entries current (l ∷ read_lines lines))
    by_line skipped e same = rw (e, config_loop) (same current)
    by_line (section_line name) e same = rw (e, config_loop) (same name)
    by_line (value_line k v) e same = rw (e, config_loop) (rw (same current))

-- The value that is read from a file is that of the first entry with the section and the key, and
-- empty if there is none; the entries do not depend on the section and the key that are looked for.
pub get_config_value-entries :
    (file section key : List ℕ)
    → get_config_value (some file) section key ≡ first_value section key (file_entries file)
unfolding get_config_value
get_config_value-entries file section key = config_loop-entries section key [] (file_lines file)
