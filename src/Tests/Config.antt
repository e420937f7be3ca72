-- ===== src/Tests/Config.antt =====
-- Settings: src/common/config.cpp at concrete inputs.
use order_engine.Prelude.{
  true, false, none, some, List, [], ◌∷◌, ◌≡◌, ◌≢◌, ap, refl, Bytes, codes, All, lookup, insert,
  bytes_eq, bytes_Eq, if◌then◌else◌, ℤ, pos, negsuc, arith,
}
use order_engine.Config.{
  Config, empty, Files, Doubles, parse_ini, load, reload, get_value, get_string, get_int, get_bool,
  get_double, set_string, set_int, set_double, set_bool, has_key, parse_bool, to_lower,
}
use order_engine.Config.Access.{IsExact, get-set}
use order_engine.Config.Document.{Item, blank, comment, section, entry, render, meaning, IsItem}
use order_engine.Config.Document.RoundTrip.{lookup-parse_ini}
use order_engine.Config.Loading.{reload-load, parse_ini-crlf}
use order_engine.Config.Parse.{
  parse_lines, parse_line, parse_stripped, store_pair, full_key, section_name, is_section,
  is_skipped,
}
use order_engine.Text.Decimal.{stoi, to_string, is_digit}
use order_engine.Text.Lines.{crlf}
use order_engine.Text.{front, lines, strip, find, is_space, is_blank}

abbrev file_text : Bytes
file_text =
    codes
      "# Test\n\n[server]\nip = 127.0.0.1\r\nport = 8080\ndebug = On\n[database]\n port\t=3306 ; x\nsize=8MB\n"

abbrev loaded : Config
loaded = parse_ini empty file_text

-- The getters on a loaded file, as in tests/test_config.cpp.
loaded_values :
    (get_string loaded (codes "server.ip") [] ≡ codes "127.0.0.1")
    × (get_int loaded (codes "server.port") (pos 1) ≡ pos 8080)
    × (get_int loaded (codes "database.port") (pos 1) ≡ pos 3306)
    × (get_int loaded (codes "database.size") (pos 1) ≡ pos 8)
    × (get_int loaded (codes "nonexistent") (pos 42) ≡ pos 42)
    × (get_bool loaded (codes "server.debug") false ≡ true)
    × (has_key loaded (codes "server.debug") ≡ true)
    × (has_key loaded (codes "debug") ≡ false)
unfolding parse_ini lines parse_lines parse_line parse_stripped store_pair full_key section_name
    is_section is_skipped strip find is_space is_blank insert bytes_eq get_string get_int get_bool
    has_key get_value lookup stoi is_digit to_lower parse_bool
loaded_values = (refl, refl, refl, refl, refl, refl, refl, refl)

-- A number with more behind it, signs, and what is no number.
stoi_values :
    (stoi (codes " -12x") ≡ some (negsuc 11))
    × (stoi (codes "+7") ≡ some (pos 7))
    × (stoi (codes "2147483648") ≡ none)
    × (stoi (codes "-2147483648") ≡ some (negsuc 2147483647))
    × (stoi (codes "x1") ≡ none)
    × (to_string (negsuc 1233) ≡ codes "-1234")
unfolding stoi is_digit to_string
stoi_values = (refl, refl, refl, refl, refl, refl)

-- Numbers in place of `double`, for the witness.
abbrev no_fractions : Doubles
no_fractions = record { Double = ℤ; stod = stoi; print = to_string }

seven-IsExact : IsExact no_fractions (pos 7)
unfolding to_string stoi is_digit
seven-IsExact = (λ e. ground (arith, ap front e), refl)

-- The key itself, with the empty text.
get-set_example :
    (get_string (set_string loaded (codes "k") []) (codes "k") (codes "d") ≡ codes "d")
    × (has_key (set_string loaded (codes "k") []) (codes "k") ≡ true)
    × (get_int (set_int loaded (codes "k") (negsuc 41)) (codes "k") (pos 0) ≡ negsuc 41)
    × (get_bool (set_bool loaded (codes "k") false) (codes "k") true ≡ false)
    × (get_double no_fractions
          (set_double no_fractions loaded (codes "k") (pos 7))
          (codes "k")
          (pos 0)
        ≡ pos 7)
unfolding bytes_eq
get-set_example =
    get-set no_fractions loaded (codes "k") (codes "k") [] (codes "d") (negsuc 41) (pos 0) false
      true (pos 7) (pos 0) (omega arith) seven-IsExact

abbrev only : Bytes → Bytes → Files
only name text file = if bytes_eq file name then some text else none

reload-load_example :
    reload
      (only (codes "a") (codes "x=1\n"))
      (load (only (codes "a") file_text) empty (codes "a")).0
    ≡ load (only (codes "a") (codes "x=1\n")) empty (codes "a")
reload-load_example =
    reload-load (only (codes "a") file_text) (only (codes "a") (codes "x=1\n")) empty (codes "a")
      (λ e. cc) (opens)
  where
    opens : only (codes "a") (codes "x=1\n") (codes "a") ≢ none
    opens = unfold bytes_eq in λ e. cc

parse_ini-crlf_example : parse_ini empty (crlf file_text) ≡ parse_ini empty file_text
parse_ini-crlf_example = parse_ini-crlf empty file_text

abbrev doc : List Item
doc =
    comment (codes " ") b'#' (codes " = [x]")
    ∷ entry [] (codes "name") (codes " ") (codes " ") (codes "a = b") (codes "\t")
    ∷ blank (codes "  ")
    ∷ section [] (codes "db") (codes " ")
    ∷ entry (codes "  ") (codes "port") [] [] (codes "1") []
    ∷ entry [] (codes "port") [] [] [] (codes " ")
    ∷ []

doc_ok : All IsItem doc
unfolding is_space is_blank
doc_ok = ground arith

lookup-parse_ini_example :
    lookup (codes "db.port") (parse_ini loaded (render doc)).configs
    ≡ meaning (codes "db.port") [] doc
lookup-parse_ini_example = lookup-parse_ini loaded doc (codes "db.port") doc_ok

meaning-doc :
    (meaning (codes "db.port") [] doc ≡ some [])
    × (meaning (codes "name") [] doc ≡ some (codes "a = b"))
    × (meaning (codes "port") [] doc ≡ none)
unfolding meaning bytes_eq
meaning-doc = (refl, refl, refl)
