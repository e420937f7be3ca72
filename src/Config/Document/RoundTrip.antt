-- ===== src/Config/Document/RoundTrip.antt =====
-- The loader of src/common/config.cpp reads every document as it is meant.
use order_engine.Prelude.{
  Bool, true, false, Option, none, some, List, [], ◌∷◌, ◌++◌, ◌≡◌, refl, ap, ◌∙◌, Bytes, All,
  if◌then◌else◌, bytes_eq, arith, lookup, lookup-insert, bytes_Eq, All-append,
}
use order_engine.Config.Document.Effects.{effect, parse_line-effect, pad-OneLine}
use order_engine.Config.Document.{
  Item, blank, comment, section, entry, render_item, render, IsItem, name_in, meaning, or_else,
}
use order_engine.Config.Parse.{Parser, parse_lines}
use order_engine.Config.{Config, parse_ini}
use order_engine.Text.Lines.{OneLine, lines-cons}
use order_engine.Text.{lines}

OneLine-append : (s t : Bytes) → OneLine s → OneLine t → OneLine (s ++ t)
OneLine-append = All-append _

render_item-OneLine : (i : Item) → IsItem i → OneLine (render_item i)
unfolding render_item
render_item-OneLine (blank pad) h = pad-OneLine pad h
render_item-OneLine (comment before mark text) h =
    OneLine-append before (mark ∷ text) (pad-OneLine before h.0) (ground (arith, h.1), h.2)
render_item-OneLine (section before name after) h =
    OneLine-append before _ (pad-OneLine before h.0)
      (refl, OneLine-append name _ h.1 (refl, pad-OneLine after h.2))
render_item-OneLine (entry before key left right value after) h =
    OneLine-append before _ (pad-OneLine before h.pads.0) (
      OneLine-append (key ++ left) _
        (OneLine-append key left h.key_ok.one_line (pad-OneLine left h.pads.1))
        (
          refl,
          OneLine-append right _ (pad-OneLine right h.pads.2)
              (OneLine-append value after h.value_line (pad-OneLine after h.pads.3)),
        ))

or_else_if :
    (a : Option Bytes) (b : Bool) (v : Bytes) (o : Option Bytes)
    → or_else a (if b then some v else o) ≡ or_else (or_else a (if b then some v else none)) o
or_else_if (some x) b v o = refl
or_else_if none true v o = refl
or_else_if none false v o = refl

or_else-none : (a : Option Bytes) → or_else a none ≡ a
or_else-none (some x) = refl
or_else-none none = refl

-- What a key stands for after an item, in a map `m` and under section `s`.
lookup-effect :
    (k : Bytes) (p : Parser) (i : Item) (is : List Item)
    → or_else (meaning k (effect p i).section is) (lookup k (effect p i).configs)
      ≡ or_else (meaning k p.section (i ∷ is)) (lookup k p.configs)
unfolding meaning
lookup-effect k p (blank pad) is = refl
lookup-effect k p (comment before mark text) is = refl
lookup-effect k p (section before name after) is = refl
lookup-effect k p (entry before key left right value after) is =
    rw (lookup-insert (name_in p.section key) k value p.configs)
      (or_else_if (meaning k p.section is) (bytes_eq (name_in p.section key) k) value _)

lookup-parse_lines :
    (k : Bytes) (is : List Item) (p : Parser)
    → All IsItem is
    → lookup k (parse_lines p (lines (render is))).configs
      ≡ or_else (meaning k p.section is) (lookup k p.configs)
unfolding parse_lines render
lookup-parse_lines k [] p h = unfold lines meaning in refl
lookup-parse_lines k (i ∷ is) p h =
    ap (λ ls. lookup k (parse_lines p ls).configs)
      (lines-cons (render_item i) (render is) (render_item-OneLine i h.0))
    ∙ ap (λ q. lookup k (parse_lines q (lines (render is))).configs) (parse_line-effect p i h.0)
    ∙ lookup-parse_lines k is (effect p i) h.1
    ∙ lookup-effect k p i is

-- The settings loaded from a document are those that it means: each key has the value of its last
-- entry, under the section that stands above it, and a key with no entry is not there. So an entry
-- under a section is not found under its bare key, where tests/test_config.cpp expects `app_name`.
-- Padding, blank lines and comments count for nothing. The document's items must be well formed.
pub lookup-parse_ini :
    (c : Config) (doc : List Item) (k : Bytes)
    → All IsItem doc
    → lookup k (parse_ini c (render doc)).configs ≡ meaning k [] doc
unfolding parse_ini
lookup-parse_ini c doc k h =
    lookup-parse_lines k doc (record { section = []; configs = [] }) h
    ∙ unfold lookup in or_else-none (meaning k [] doc)
