-- ===== src/Config/Document/Effects.antt =====
-- What one line of a document does to the loader of src/common/config.cpp.
use order_engine.Prelude.{
  ℕ, suc, ◌-◌, length-append, true, false, some, [], ◌∷◌, ◌++◌, ◌≡◌, ◌⊎◌, refl, sym, ap, ◌∙◌, Bytes,
  All, ◌==◌, bytes_eq, arith, inl, inr, drop, length, insert, bytes_Eq, append_assoc, take-append,
  All-append, All-map, append-nil,
}
use order_engine.Text.{is_space, is_blank, find, strip}
use order_engine.Text.Lines.{OneLine}
use order_engine.Text.Trim.{
  AllIn, strip_head, strip_right, strip-pad, strip-pad_left, strip-AllIn, strip_ends,
  strip_right-stop, strip_right-pad, strip_right-AllIn, strip_right-back, back-append,
}
use order_engine.Config.Document.{
  Item, blank, comment, section, entry, render_item, IsItem, IsKey, HasEdges, name_in,
}
use order_engine.Config.Parse.{
  Parser, is_skipped, is_section, section_name, full_key, store_pair, parse_stripped, parse_line,
}

is_blank-is_space : (c : ℕ) → is_blank c ≡ true → is_space c ≡ true
unfolding is_blank is_space
is_blank-is_space c h = ground arith

pad-AllIn : (pad : Bytes) → AllIn is_blank pad → AllIn is_space pad
pad-AllIn = All-map _ is_blank-is_space

is_blank-of_edge : (c : ℕ) → is_space c ≡ false → is_blank c ≡ false
unfolding is_blank is_space
is_blank-of_edge c h = ground arith

pub pad-OneLine : (pad : Bytes) → AllIn is_blank pad → OneLine pad
pad-OneLine = All-map _ newline
  where
    newline : (c : ℕ) → is_blank c ≡ true → (c == b'\n') ≡ false
    newline c h = unfold is_blank in ground arith

-- What one item does to the loader.
abbrev pub store : Parser → Bytes → Bytes → Parser
store p key value = record p { configs = insert (name_in p.section key) value p.configs }

abbrev pub effect : Parser → Item → Parser
effect p (blank pad) = p
effect p (comment before mark text) = p
effect p (section before name after) = record p { section = name }
effect p (entry before key left right value after) = store p key value

find-append :
    (s t : Bytes) → All (λ c. (c == b'=') ≡ false) s → find b'=' (s ++ b'=' ∷ t) ≡ some (length s)
unfolding find
find-append [] t h = refl
find-append (c ∷ s) t h = rw (h.0, find-append s t h.1)

drop-suc : (s t : Bytes) (c : ℕ) → drop (suc (length s)) (s ++ c ∷ t) ≡ t
drop-suc [] t c = refl
drop-suc (x ∷ s) t c = drop-suc s t c

full_key-name_in : (s key : Bytes) → full_key s key ≡ name_in s key
unfolding full_key bytes_eq
full_key-name_in [] key = refl
full_key-name_in (c ∷ s) key = refl

blank_line : (p : Parser) (pad : Bytes) → AllIn is_blank pad → parse_line p pad ≡ p
unfolding parse_line
blank_line p pad h =
    rw (strip-AllIn is_space pad (pad-AllIn pad h))
      (unfold parse_stripped is_skipped bytes_eq in refl)

skipped_mark :
    (p : Parser) (mark : ℕ) (text : Bytes)
    → (mark ≡ b'#') ⊎ (mark ≡ b';')
    → parse_stripped p (mark ∷ text) ≡ p
unfolding parse_stripped is_skipped is_section bytes_eq
skipped_mark p mark text m = ground arith

mark_edge : (mark : ℕ) → (mark ≡ b'#') ⊎ (mark ≡ b';') → is_space mark ≡ false
unfolding is_space
mark_edge mark m = ground arith

comment_line :
    (p : Parser) (before : Bytes) (mark : ℕ) (text : Bytes)
    → AllIn is_blank before
    → (mark ≡ b'#') ⊎ (mark ≡ b';')
    → parse_line p (before ++ mark ∷ text) ≡ p
unfolding parse_line
comment_line p before mark text h m =
    rw
      (
        strip-pad_left is_space before (mark ∷ text) (pad-AllIn before h),
        strip_head is_space mark text (mark_edge mark m),
      )
      (skipped_mark p mark (strip_right is_space text) m)

strip_section :
    (name after : Bytes)
    → AllIn is_blank after
    → strip is_space (b'[' ∷ (name ++ b']' ∷ after)) ≡ b'[' ∷ (name ++ b']' ∷ [])
strip_section name after h =
    strip_head is_space b'[' (name ++ b']' ∷ after) (unfold is_space in refl)
    ∙ ap (◌∷◌ b'[') (
        strip_right-stop is_space name after b']' (unfold is_space in refl)
        ∙ ap (λ t. name ++ b']' ∷ t) (strip_right-AllIn is_space after (pad-AllIn after h)))

section_name_lem : (name : Bytes) → section_name (b'[' ∷ (name ++ b']' ∷ [])) ≡ name
unfolding section_name
section_name_lem name =
    let e : suc (length (name ++ b']' ∷ [])) - 2 ≡ length name =
      omega (arith, length-append name (b']' ∷ [])) in
    rw e (take-append name (b']' ∷ []))

parse_section :
    (p : Parser) (name : Bytes)
    → parse_stripped p (b'[' ∷ (name ++ b']' ∷ [])) ≡ record p { section = name }
unfolding parse_stripped is_skipped is_section bytes_eq
parse_section p name = rw (back-append (b'[' ∷ name) [] b']', section_name_lem name)

section_line :
    (p : Parser) (before name after : Bytes)
    → AllIn is_blank before
    → AllIn is_blank after
    → parse_line p (before ++ (b'[' ∷ (name ++ b']' ∷ after))) ≡ record p { section = name }
unfolding parse_line
section_line p before name after hb ha =
    rw
      (
        strip-pad_left is_space before (b'[' ∷ (name ++ b']' ∷ after)) (pad-AllIn before hb),
        strip_section name after ha,
      )
      (parse_section p name)

-- The text of a key with the padding behind it.
strip_key :
    (key left : Bytes) → IsKey key → AllIn is_blank left → strip is_blank (key ++ left) ≡ key
strip_key key left k h =
    strip-pad is_blank key left h
    ∙ strip_ends is_blank key (is_blank-of_edge _ k.edges.front_edge)
        (is_blank-of_edge _ k.edges.back_edge)

strip_value :
    (right value after : Bytes)
    → AllIn is_blank right
    → AllIn is_blank after
    → (value ≡ []) ⊎ HasEdges value
    → strip is_blank (strip_right is_space (right ++ (value ++ after))) ≡ value
strip_value right value after hr ha e =
    ap (strip is_blank) (
      ap (strip_right is_space) (sym (append_assoc right value after))
      ∙ strip_right-pad is_space (right ++ value) after (pad-AllIn after ha))
    ∙ inner value e
  where
    inner :
        (v : Bytes) → (v ≡ []) ⊎ HasEdges v → strip is_blank (strip_right is_space (right ++ v)) ≡ v
    inner [] e =
        ap (λ t. strip is_blank (strip_right is_space t)) (append-nil right)
        ∙ ap (strip is_blank) (strip_right-AllIn is_space right (pad-AllIn right hr))
        ∙ strip-AllIn is_blank [] tt
    inner (c ∷ v) (inl e) = cc
    inner (c ∷ v) (inr e) =
        ap (strip is_blank)
          (strip_right-back is_space (right ++ c ∷ v) (rw (back-append right v c) e.back_edge))
        ∙ strip-pad_left is_blank right (c ∷ v) hr
        ∙ strip_ends is_blank (c ∷ v) (is_blank-of_edge _ e.front_edge)
            (is_blank-of_edge _ e.back_edge)

strip_entry :
    (key left rest : Bytes)
    → IsKey key
    → strip is_space ((key ++ left) ++ b'=' ∷ rest)
      ≡ (key ++ left) ++ b'=' ∷ strip_right is_space rest
strip_entry [] left rest k = absurd (k.ne_nil refl)
strip_entry (c ∷ key) left rest k =
    strip_head is_space c ((key ++ left) ++ b'=' ∷ rest) k.edges.front_edge
    ∙ ap (◌∷◌ c) (strip_right-stop is_space (key ++ left) rest b'=' (unfold is_space in refl))

-- A line that begins with a key is neither a comment nor a section.
key_line :
    (key rest : Bytes)
    → IsKey key
    → (is_skipped (key ++ rest) ≡ false) × (is_section (key ++ rest) ≡ false)
unfolding is_skipped is_section bytes_eq
key_line [] rest k = absurd (k.ne_nil refl)
key_line (c ∷ key) rest k = ground (arith, k.no_mark)

store_entry :
    (p : Parser) (key left rest : Bytes)
    → IsKey key
    → AllIn is_blank left
    → store_pair p ((key ++ left) ++ b'=' ∷ rest) (some (length (key ++ left)))
      ≡ store p key (strip is_blank rest)
unfolding store_pair
store_entry p key left rest k h = rw (
  take-append (key ++ left) (b'=' ∷ rest),
  drop-suc (key ++ left) rest b'=',
  strip_key key left k h,
  full_key-name_in p.section key,
)

blank_ne_equals : (c : ℕ) → is_blank c ≡ true → (c == b'=') ≡ false
unfolding is_blank
blank_ne_equals c h = ground arith

parse_entry :
    (p : Parser) (key left rest : Bytes)
    → IsKey key
    → AllIn is_blank left
    → parse_stripped p ((key ++ left) ++ b'=' ∷ rest) ≡ store p key (strip is_blank rest)
unfolding parse_stripped
parse_entry p key left rest k h =
    let (plain, named) =
      rw (← append_assoc key left (b'=' ∷ rest)) at (key_line key (left ++ b'=' ∷ rest) k) in
    rw
      (
        plain,
        named,
        find-append (key ++ left) rest
            (All-append _ key left k.no_equals (All-map _ blank_ne_equals left h)),
      )
      (store_entry p key left rest k h)

entry_line :
    (p : Parser) (before key left right value after : Bytes)
    → IsItem (entry before key left right value after)
    → parse_line p (before ++ ((key ++ left) ++ b'=' ∷ (right ++ (value ++ after))))
      ≡ store p key value
unfolding parse_line
entry_line p before key left right value after h =
    let rest : Bytes = right ++ (value ++ after) in
    rw
      (
        strip-pad_left is_space before ((key ++ left) ++ b'=' ∷ rest) (pad-AllIn before h.pads.0),
        strip_entry key left rest h.key_ok,
      )
      (parse_entry p key left (strip_right is_space rest) h.key_ok h.pads.1
        ∙ ap (store p key) (strip_value right value after h.pads.2 h.pads.3 h.value_edges))

pub parse_line-effect :
    (p : Parser) (i : Item) → IsItem i → parse_line p (render_item i) ≡ effect p i
unfolding render_item
parse_line-effect p (blank pad) h = blank_line p pad h
parse_line-effect p (comment before mark text) h = comment_line p before mark text h.0 h.1
parse_line-effect p (section before name after) h = section_line p before name after h.0 h.2
parse_line-effect p (entry before key left right value after) h =
    entry_line p before key left right value after h
