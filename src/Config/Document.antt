-- ===== src/Config/Document.antt =====
-- Documents: INI files as a person writes them, and what each key stands for in them. The loader of
-- src/common/config.cpp is compared with this in `Effects` and `RoundTrip`.
pub mod Effects
pub mod RoundTrip
use order_engine.Prelude.{
  ℕ, Bool, true, false, Option, none, some, List, [], ◌∷◌, ◌++◌, ◌≡◌, ◌≢◌, ◌⊎◌, Bytes, All, ◌==◌,
  if◌then◌else◌, bytes_eq,
}
use order_engine.Text.{is_space, is_blank, front, back}
use order_engine.Text.Lines.{OneLine}
use order_engine.Text.Trim.{AllIn}

-- One line. `before` and `after` are padding, as are `left` and `right` round the '='.
pub data Item : Type 0 where
  blank : (pad : Bytes) → Item
  comment : (before : Bytes) (mark : ℕ) (text : Bytes) → Item
  section : (before name after : Bytes) → Item
  entry : (before key left right value after : Bytes) → Item

unfoldable pub render_item : Item → Bytes
render_item (blank pad) = pad
render_item (comment before mark text) = before ++ mark ∷ text
render_item (section before name after) = before ++ (b'[' ∷ (name ++ b']' ∷ after))
render_item (entry before key left right value after) =
    before ++ ((key ++ left) ++ b'=' ∷ (right ++ (value ++ after)))

unfoldable pub render : List Item → Bytes
unfolding render_item
render [] = []
render (i ∷ is) = render_item i ++ b'\n' ∷ render is

-- No white space at either end.
pub record HasEdges (s : Bytes) : Type 0 where
  pub front_edge : is_space (front s) ≡ false
  pub back_edge : is_space (back s) ≡ false

-- A key that the loader can tell from a comment and from a section's name.
pub record IsKey (key : Bytes) : Type 0 where
  pub ne_nil : key ≢ []
  pub one_line : OneLine key
  pub edges : HasEdges key
  pub no_equals : All (λ c. (c == b'=') ≡ false) key
  pub no_mark : (front key ≢ b'#') × (front key ≢ b';') × (front key ≢ b'[')

abbrev pub IsItem : Item → Type 0
IsItem (blank pad) = AllIn is_blank pad
IsItem (comment before mark text) =
    AllIn is_blank before × ((mark ≡ b'#') ⊎ (mark ≡ b';')) × OneLine text
IsItem (section before name after) = AllIn is_blank before × OneLine name × AllIn is_blank after
IsItem (entry before key left right value after) = record {
  pads : AllIn is_blank before × AllIn is_blank left × AllIn is_blank right × AllIn is_blank after;
  key_ok : IsKey key;
  value_line : OneLine value;
  value_edges : (value ≡ []) ⊎ HasEdges value;
}

-- The key's name under a section: "section.key", or "key" under no section.
abbrev pub name_in : Bytes → Bytes → Bytes
name_in [] key = key
name_in (c ∷ s) key = (c ∷ s) ++ b'.' ∷ key

abbrev pub or_else {ℓ} : {A : Type ℓ} → Option A → Option A → Option A
or_else (some a) b = some a
or_else none b = b

-- What the document says of a key, read in the given section: its last entry counts.
unfoldable pub meaning : Bytes → Bytes → List Item → Option Bytes
meaning k s [] = none
meaning k s (blank pad ∷ is) = meaning k s is
meaning k s (comment before mark text ∷ is) = meaning k s is
meaning k s (section before name after ∷ is) = meaning k name is
meaning k s (entry before key left right value after ∷ is) =
    or_else (meaning k s is) (if bytes_eq (name_in s key) k then some value else none)
