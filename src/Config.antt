-- ===== src/Config.antt =====
-- src/common/config.cpp, include/common/config.h: the settings as a map, loading them from the text
-- of an INI file, and the typed getters and setters. The file system is an argument, the contents
-- of the files that can be opened. Every method holds `config_mutex_` for its whole access to the
-- map, so it is one step here. Messages to the log are not modelled.
pub mod Parse
pub mod Access
pub mod Loading
pub mod Document
use order_engine.Prelude.{
  ℕ, Bool, true, false, not, ◌||◌, Option, none, some, [], ◌∷◌, ◌++◌, Bytes, codes, Map, lookup,
  insert, bytes_Eq, bytes_eq, if◌then◌else◌, ℤ, leb, ◌&&◌, ◌+◌,
}
use Parse.{parse_lines}
use order_engine.Text.{lines}
use order_engine.Text.Decimal.{stoi, to_string}
use mathlib.Core.List.{map}

-- `Config`.
pub record Config : Type 0 where
  pub configs : Map Bytes Bytes
  pub config_file : Bytes

-- `Config()`
abbrev pub empty : Config
empty = record { configs = []; config_file = [] }

-- What `std::ifstream` reads of a path; `none` where it cannot be opened.
abbrev pub Files : Type 0
Files = Bytes → Option Bytes

unfoldable pub parse_ini : Config → Bytes → Config
parse_ini c content = record c {
  configs = (parse_lines (record { section = []; configs = [] }) (lines content)).configs;
}

abbrev load_from : Config → Option Bytes → Config × Bool
load_from c none = (c, false)
load_from c (some content) = (parse_ini c content, true)

unfoldable pub load : Files → Config → Bytes → Config × Bool
load files c file = load_from (record c { config_file = file }) (files file)

unfoldable pub reload : Files → Config → Config × Bool
unfolding load
reload files c = if bytes_eq c.config_file [] then (c, false) else load files c c.config_file

abbrev or_empty : Option Bytes → Bytes
or_empty none = []
or_empty (some v) = v

unfoldable pub get_value : Config → Bytes → Bytes
unfolding lookup
get_value c key = or_empty (lookup key c.configs)

unfoldable pub set_value : Config → Bytes → Bytes → Config
unfolding insert
set_value c key value = record c { configs = insert key value c.configs }

abbrev pub or_default {ℓ} : {A : Type ℓ} → Option A → A → A
or_default none d = d
or_default (some a) d = a

unfoldable pub get_string : Config → Bytes → Bytes → Bytes
get_string c key default =
    let value = get_value c key in if bytes_eq value [] then default else value

unfoldable pub get_int : Config → Bytes → ℤ → ℤ
get_int c key default =
    let value = get_value c key in
    if bytes_eq value [] then default else or_default (stoi value) default

-- `::tolower` in the C locale.
unfoldable pub to_lower : ℕ → ℕ
to_lower c = if leb b'A' c && leb c b'Z' then c + 32 else c

-- The text of a Boolean; `none` is the warning.
unfoldable pub parse_bool : Bytes → Option Bool
parse_bool v =
    if bytes_eq v (codes "true")
      || bytes_eq v (codes "1")
      || bytes_eq v (codes "yes")
      || bytes_eq v (codes "on")
    then some true
    else if bytes_eq v (codes "false")
        || bytes_eq v (codes "0")
        || bytes_eq v (codes "no")
        || bytes_eq v (codes "off")
    then some false
    else none

unfoldable pub get_bool : Config → Bytes → Bool → Bool
get_bool c key default =
    let value = get_value c key in
    if bytes_eq value [] then default else or_default (parse_bool (map to_lower value)) default

unfoldable pub set_string : Config → Bytes → Bytes → Config
set_string c key value = set_value c key value

unfoldable pub set_int : Config → Bytes → ℤ → Config
set_int c key value = set_value c key (to_string value)

unfoldable pub set_bool : Config → Bytes → Bool → Config
set_bool c key value = set_value c key (if value then codes "true" else codes "false")

abbrev is_found : Option Bytes → Bool
is_found none = false
is_found (some v) = true

unfoldable pub has_key : Config → Bytes → Bool
unfolding lookup
has_key c key = is_found (lookup key c.configs)

unfoldable pub get_all_configs : Config → Map Bytes Bytes
get_all_configs c = c.configs

-- What the program takes of `double`: `std::stod`, with `none` for its exceptions, and
-- `std::to_string(double)`.
pub record Doubles : Type 1 where
  pub Double : Type 0
  pub stod : Bytes → Option Double
  pub print : Double → Bytes

module _ (d : Doubles) where
  unfoldable pub get_double : Config → Bytes → d.Double → d.Double
  get_double c key default =
      let value = get_value c key in
      if bytes_eq value [] then default else or_default (d.stod value) default

  unfoldable pub set_double : Config → Bytes → d.Double → Config
  set_double c key value = set_value c key (d.print value)
