-- ===== src/Text/Trim.antt =====
-- `strip` as a recursion from each end, and what it does to padding. (src/common/config.cpp)
use order_engine.Prelude.{
  ℕ, Bool, true, false, [], ◌∷◌, ◌++◌, ◌≡◌, refl, sym, ap, ◌∙◌, arith, Bytes, All, if◌then◌else◌,
  inl, inr, Bool-cases, append-nil,
}
use order_engine.Text.{
  find_first_not_of, find_last_not_of, erase_before, erase_after, strip, front, back,
}

abbrev pub strip_left : (ℕ → Bool) → Bytes → Bytes
strip_left p [] = []
strip_left p (c ∷ s) = if p c then strip_left p s else c ∷ s

-- A byte in front of a string that has been stripped from the right.
abbrev onto_right : Bool → ℕ → Bytes → Bytes
onto_right inside c [] = if inside then [] else c ∷ []
onto_right inside c (d ∷ t) = c ∷ d ∷ t

abbrev pub strip_right : (ℕ → Bool) → Bytes → Bytes
strip_right p [] = []
strip_right p (c ∷ s) = onto_right (p c) c (strip_right p s)

erase_before-strip_left :
    (p : ℕ → Bool) (s : Bytes) → erase_before (find_first_not_of p s) s ≡ strip_left p s
unfolding find_first_not_of
erase_before-strip_left p [] = refl
erase_before-strip_left p (c ∷ s) = ground (arith, erase_before-strip_left p s)

erase_after-strip_right :
    (p : ℕ → Bool) (s : Bytes) → erase_after (find_last_not_of p s) s ≡ strip_right p s
unfolding find_last_not_of
erase_after-strip_right p [] = refl
erase_after-strip_right p (c ∷ s) = ground (arith, erase_after-strip_right p s)

strip-eq : (p : ℕ → Bool) (s : Bytes) → strip p s ≡ strip_right p (strip_left p s)
unfolding strip
strip-eq p s =
    erase_after-strip_right p (erase_before (find_first_not_of p s) s)
    ∙ ap (strip_right p) (erase_before-strip_left p s)

-- Bytes of the set only.
abbrev pub AllIn : (ℕ → Bool) → Bytes → Type 0
AllIn p = All (λ c. p c ≡ true)

strip_left-pad :
    (p : ℕ → Bool) (pad s : Bytes) → AllIn p pad → strip_left p (pad ++ s) ≡ strip_left p s
strip_left-pad p [] s h = refl
strip_left-pad p (c ∷ pad) s h = rw (h.0) (strip_left-pad p pad s h.1)

pub strip_right-AllIn : (p : ℕ → Bool) (pad : Bytes) → AllIn p pad → strip_right p pad ≡ []
strip_right-AllIn p [] h = refl
strip_right-AllIn p (c ∷ pad) h = rw (strip_right-AllIn p pad h.1, h.0)

pub strip_right-pad :
    (p : ℕ → Bool) (s pad : Bytes) → AllIn p pad → strip_right p (s ++ pad) ≡ strip_right p s
strip_right-pad p [] pad h = strip_right-AllIn p pad h
strip_right-pad p (c ∷ s) pad h = rw (strip_right-pad p s pad h)

-- A byte outside the set stops both ends.
strip_left-stop :
    (p : ℕ → Bool) (s t : Bytes) (c : ℕ)
    → p c ≡ false
    → strip_left p (s ++ c ∷ t) ≡ strip_left p s ++ c ∷ t
strip_left-stop p [] t c h = rw h
strip_left-stop p (d ∷ s) t c h = ground (arith, strip_left-stop p s t c h)

onto_right-stop :
    (inside : Bool) (d : ℕ) (s t : Bytes) (c : ℕ)
    → onto_right inside d (s ++ c ∷ t) ≡ d ∷ (s ++ c ∷ t)
onto_right-stop inside d [] t c = refl
onto_right-stop inside d (x ∷ s) t c = refl

pub strip_right-stop :
    (p : ℕ → Bool) (s t : Bytes) (c : ℕ)
    → p c ≡ false
    → strip_right p (s ++ c ∷ t) ≡ s ++ c ∷ strip_right p t
strip_right-stop p [] t c h = ground arith
strip_right-stop p (d ∷ s) t c h =
    rw (strip_right-stop p s t c h) (onto_right-stop (p d) d s (strip_right p t) c)

-- A string whose ends are outside the set is not changed.
strip_left-front : (p : ℕ → Bool) (s : Bytes) → p (front s) ≡ false → strip_left p s ≡ s
strip_left-front p [] h = refl
strip_left-front p (c ∷ s) h = rw h

pub strip_right-back : (p : ℕ → Bool) (s : Bytes) → p (back s) ≡ false → strip_right p s ≡ s
strip_right-back p [] h = refl
strip_right-back p (c ∷ []) h = rw h
strip_right-back p (c ∷ d ∷ s) h = rw (strip_right-back p (d ∷ s) h)

pub back-append : (s t : Bytes) (c : ℕ) → back (s ++ c ∷ t) ≡ back (c ∷ t)
back-append [] t c = refl
back-append (x ∷ []) t c = refl
back-append (x ∷ y ∷ s) t c = back-append (y ∷ s) t c

pub strip-pad : (p : ℕ → Bool) (s pad : Bytes) → AllIn p pad → strip p (s ++ pad) ≡ strip p s
strip-pad p s pad h = strip-eq p (s ++ pad) ∙ ends s ∙ sym (strip-eq p s)
  where
    ends : (t : Bytes) → strip_right p (strip_left p (t ++ pad)) ≡ strip_right p (strip_left p t)
    ends [] =
        ap (strip_right p) (ap (strip_left p) (sym (append-nil pad)) ∙ strip_left-pad p pad [] h)
    ends (c ∷ t) = elim (Bool-cases (p c)) [
      | inl e ↦ rw e (ends t)
      | inr e ↦ rw e (strip_right-pad p (c ∷ t) pad h)
    ]

pub strip-pad_left : (p : ℕ → Bool) (pad s : Bytes) → AllIn p pad → strip p (pad ++ s) ≡ strip p s
strip-pad_left p pad s h =
    strip-eq p (pad ++ s) ∙ ap (strip_right p) (strip_left-pad p pad s h) ∙ sym (strip-eq p s)

pub strip-AllIn : (p : ℕ → Bool) (pad : Bytes) → AllIn p pad → strip p pad ≡ []
strip-AllIn p pad h =
    ap (strip p) (sym (append-nil pad)) ∙ strip-pad_left p pad [] h ∙ strip-eq p []

-- A string whose ends are outside the set stays as it is.
pub strip_ends :
    (p : ℕ → Bool) (s : Bytes) → p (front s) ≡ false → p (back s) ≡ false → strip p s ≡ s
strip_ends p s f b =
    strip-eq p s ∙ ap (strip_right p) (strip_left-front p s f) ∙ strip_right-back p s b

-- A string that begins outside the set is stripped at its end only.
pub strip_head :
    (p : ℕ → Bool) (c : ℕ) (t : Bytes) → p c ≡ false → strip p (c ∷ t) ≡ c ∷ strip_right p t
strip_head p c t h =
    strip-eq p (c ∷ t)
    ∙ ap (strip_right p) (strip_left-front p (c ∷ t) h)
    ∙ strip_right-stop p [] t c h
