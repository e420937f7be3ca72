-- ===== src/Config/Parse.antt =====
-- The loop of `Config::parseINI` (src/common/config.cpp), a line at a time.
use order_engine.Prelude.{
  ℕ, suc, ◌-◌, Bool, ◌&&◌, ◌||◌, Option, none, some, List, [], ◌∷◌, ◌++◌, Bytes, Map, insert,
  bytes_Eq, bytes_eq, length, take, drop, ◌==◌, if◌then◌else◌,
}
use order_engine.Text.{is_space, is_blank, strip, find, front, back}

-- The locals of the loop: the section's name and the map.
pub record Parser : Type 0 where
  pub section : Bytes
  pub configs : Map Bytes Bytes

unfoldable pub is_skipped : Bytes → Bool
is_skipped line = bytes_eq line [] || front line == b'#' || front line == b';'

unfoldable pub is_section : Bytes → Bool
is_section line = front line == b'[' && back line == b']'

-- line.substr(1, line.length() - 2)
unfoldable pub section_name : Bytes → Bytes
section_name line = take (length line - 2) (drop 1 line)

unfoldable pub full_key : Bytes → Bytes → Bytes
full_key section key = if bytes_eq section [] then key else section ++ b'.' ∷ key

-- The line split at its first '='.
unfoldable pub store_pair : Parser → Bytes → Option ℕ → Parser
store_pair p line none = p
store_pair p line (some i) =
    let key = strip is_blank (take i line) in
    let value = strip is_blank (drop (suc i) line) in
    record p { configs = insert (full_key p.section key) value p.configs }

-- One round, on the line without the white space round it.
unfoldable pub parse_stripped : Parser → Bytes → Parser
parse_stripped p line =
    if is_skipped line
    then p
    else if is_section line
    then record p { section = section_name line }
    else store_pair p line (find b'=' line)

unfoldable pub parse_line : Parser → Bytes → Parser
parse_line p line = parse_stripped p (strip is_space line)

unfoldable pub parse_lines : Parser → List Bytes → Parser
parse_lines p [] = p
parse_lines p (l ∷ ls) = parse_lines (parse_line p l) ls
