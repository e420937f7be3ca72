-- ===== src/Config/Loading.antt =====
-- `Config::load` and `Config::reload` (src/common/config.cpp): what a failure keeps, and what a
-- success forgets.
use order_engine.Prelude.{
  true, none, [], ◌≡◌, ◌≢◌, refl, Bytes, bytes_eq_iff, arith, ◌↔◌, ◌∷◌, inl, inr, List, ◌∙◌, ap,
}
use order_engine.Text.{lines, is_space}
use order_engine.Text.Lines.{crlf, lines-crlf, AllWithReturn, WithReturn}
use order_engine.Text.Trim.{strip-pad}
use order_engine.Config.Parse.{Parser, parse_stripped, parse_line, parse_lines}
use order_engine.Config.{Config, Files, parse_ini, load, reload, get_all_configs}

-- `load` succeeds exactly when the file can be opened. It remembers the file's name in both cases;
-- without the file the settings stay as they were.
load_lem :
    (files : Files) (c : Config) (file : Bytes)
    → (((load files c file).1 ≡ true) ↔ (files file ≢ none))
      × ((load files c file).0.config_file ≡ file)
      × (files file ≡ none → get_all_configs (load files c file).0 ≡ get_all_configs c)
unfolding load get_all_configs parse_ini
load_lem files c file = ground arith

-- After `load(file)` of a non-empty name, with or without success, `reload()` gives what `load(file)` would give now,
-- if the file can be opened now: nothing is left of the settings before it.
pub reload-load :
    (before now : Files) (c : Config) (file : Bytes)
    → file ≢ []
    → now file ≢ none
    → reload now (load before c file).0 ≡ load now c file
unfolding load reload parse_ini
reload-load before now c file ne opens = ground (arith, bytes_eq_iff file [])

parse_line-WithReturn :
    (p : Parser) (l m : Bytes) → WithReturn l m → parse_line p m ≡ parse_line p l
parse_line-WithReturn p l m (inl e) = ap (parse_line p) e
parse_line-WithReturn p l m (inr e) =
    ap (parse_line p) e
    ∙ unfold parse_line in
      ap (parse_stripped p) (strip-pad is_space l (b'\r' ∷ []) (return_is_space, tt))
  where
    return_is_space : is_space b'\r' ≡ true
    return_is_space = unfold is_space in refl

parse_lines-AllWithReturn :
    (ls ms : List Bytes) (p : Parser) → AllWithReturn ls ms → parse_lines p ms ≡ parse_lines p ls
unfolding parse_lines
parse_lines-AllWithReturn [] [] p h = refl
parse_lines-AllWithReturn (l ∷ ls) (m ∷ ms) p h =
    ap (λ q. parse_lines q ms) (parse_line-WithReturn p l m h.0)
    ∙ parse_lines-AllWithReturn ls ms (parse_line p l) h.1
parse_lines-AllWithReturn [] (m ∷ ms) p h = absurd h
parse_lines-AllWithReturn (l ∷ ls) [] p h = absurd h

-- Files with "\r\n" at the ends of their lines load as those with "\n".
pub parse_ini-crlf :
    (c : Config) (content : Bytes) → parse_ini c (crlf content) ≡ parse_ini c content
unfolding parse_ini
parse_ini-crlf c content = rw (
    parse_lines-AllWithReturn (lines content) (lines (crlf content))
      (record { section = []; configs = [] }) (lines-crlf content))
