-- ===== src/Logger/Guards.antt =====
-- No call is made of a logger that was not made (src/common/logger.cpp).
use order_engine.Prelude.{
  Bool, true, false, ◌||◌, Bool-cases, inl, inr, Option, none, some, List, [], ◌∷◌, ◌≡◌, refl, sym,
  subst, arith,
}
use order_engine.Logger.{
  Name, main_logger, Call, Logger, Spdlog, make_logger, set_level, set_pattern, register_logger,
  set_default_logger, log, flush, shutdown, create, is_set, calls_also, assigned, if_set, try_calls,
  initialize_calls, initialize, message, message_fmt, log_performance, log_business, change_level,
  shut_down, Method, initializes, says, formats, performs, does_business, changes_level, shuts_down,
  call, run,
}

abbrev pub same_name : Name → Name → Bool
same_name main_logger main_logger = true
same_name Name.perf_logger Name.perf_logger = true
same_name Name.business_logger Name.business_logger = true
same_name _ _ = false

abbrev IsMade : Option Name → (Name → Bool) → Type 0
IsMade none have = Unit
IsMade (some n) have = have n ≡ true

IsMade-mono :
    (o : Option Name) (have have' : Name → Bool)
    → ((n : Name) → have n ≡ true → have' n ≡ true)
    → IsMade o have
    → IsMade o have'
IsMade-mono none have have' k h = tt
IsMade-mono (some n) have have' k h = k n h

module _ {D : Type 0} where
  -- The logger that a call uses.
  abbrev pub used : Call D → Option Name
  used (set_level n level) = some n
  used (set_pattern n pattern_text) = some n
  used (register_logger n) = some n
  used (set_default_logger n) = some n
  used (log n level format args) = some n
  used (flush n) = some n
  used _ = none

  abbrev pub makes : Name → Call D → Bool
  makes n (make_logger m sinks) = same_name m n
  makes n _ = false

  abbrev pub made : Name → List (Call D) → Bool
  made n [] = false
  made n (c ∷ cs) = makes n c || made n cs

  -- Each call uses a logger made before.
  abbrev pub IsGuarded : List (Call D) → Type 0
  IsGuarded [] = Unit
  IsGuarded (c ∷ cs) = IsMade (used c) (λ n. made n cs) × IsGuarded cs

  -- The members that are set hold loggers that were made.
  abbrev Sound : Logger D → Type 0
  Sound l = IsGuarded l.calls × ((n : Name) → is_set n l ≡ true → made n l.calls ≡ true)

  -- The calls of a block, where the loggers of `have` are made.
  abbrev Orderly : (Name → Bool) → List (Call D) → Type 0
  Orderly have [] = Unit
  Orderly have (c ∷ cs) = IsMade (used c) have × Orderly (λ n. makes n c || have n) cs

  pub assigned-calls : (c : Call D) (l : Logger D) → (assigned c l).calls ≡ l.calls
  assigned-calls (make_logger main_logger sinks) l = refl
  assigned-calls (make_logger Name.perf_logger sinks) l = refl
  assigned-calls (make_logger Name.business_logger sinks) l = refl
  assigned-calls _ l = refl

  assigned-is_set :
      (c : Call D) (l : Logger D) (n : Name)
      → is_set n (assigned c l) ≡ true
      → (makes n c || is_set n l) ≡ true
  assigned-is_set (make_logger main_logger sinks) l main_logger h = refl
  assigned-is_set (make_logger Name.perf_logger sinks) l Name.perf_logger h = refl
  assigned-is_set (make_logger Name.business_logger sinks) l Name.business_logger h = refl
  assigned-is_set (make_logger m sinks) l n h = h
  assigned-is_set _ l n h = h

  is_set-calls_also :
      (c : Call D) (l : Logger D) (n : Name) → is_set n (calls_also c l) ≡ is_set n l
  is_set-calls_also c l main_logger = refl
  is_set-calls_also c l Name.perf_logger = refl
  is_set-calls_also c l Name.business_logger = refl

  calls_also-Sound :
      (c : Call D) (l : Logger D)
      → IsMade (used c) (λ n. made n l.calls)
      → Sound l
      → Sound (assigned c (calls_also c l))
  calls_also-Sound c l ok (guarded, sets) =
      let e = sym (assigned-calls c (calls_also c l)) in
      (
        subst IsGuarded e (ok, guarded),
        λ n s.
            subst (λ cs. made n cs ≡ true) e
              (ground
                (arith, assigned-is_set c (calls_also c l) n s, is_set-calls_also c l n, sets n)),
      )

  try_calls-Sound :
      (throws : Spdlog D) (cs : List (Call D)) (l : Logger D) (have : Name → Bool)
      → ((n : Name) → have n ≡ true → made n l.calls ≡ true)
      → Orderly have cs
      → Sound l
      → Sound (try_calls throws cs l).0
  unfolding try_calls
  try_calls-Sound throws [] l have k ok h = h
  try_calls-Sound throws (c ∷ cs) l have k ok h = elim (Bool-cases (throws l.calls c)) [
    | inl thrown ↦ rw thrown h
    | inr fine ↦ rw fine (
        try_calls-Sound throws cs (assigned c (calls_also c l)) (λ n. makes n c || have n)
          (λ n m.
            subst (λ ds. made n ds ≡ true) (sym (assigned-calls c (calls_also c l)))
              (ground (arith, m, k n)))
          ok.1 (calls_also-Sound c l (IsMade-mono (used c) have (λ n. made n l.calls) k ok.0) h))
  ]

initialize_calls-Orderly : (D : Type 0) → Orderly (λ n. false) (initialize_calls {D = D})
unfolding initialize_calls
initialize_calls-Orderly D = ground arith

not_set :
    (D : Type 0) (n : Name)
    → is_set n (create {D = D}) ≡ true
    → made n (create {D = D}).calls ≡ true
unfolding create
not_set D main_logger h = h
not_set D Name.perf_logger h = h
not_set D Name.business_logger h = h

module _ {D : Type 0} where
  initialize-Sound : (throws : Spdlog D) (l : Logger D) → Sound l → Sound (initialize throws l).0
  unfolding initialize
  initialize-Sound throws l =
      try_calls-Sound throws initialize_calls l (λ n. false) (λ n m. absurd (cc))
        (initialize_calls-Orderly D)

  -- A call behind the test of its member.
  if_set-Sound :
      (n : Name) (c : Call D) (l : Logger D)
      → used c ≡ some n
      → assigned c (calls_also c l) ≡ calls_also c l
      → Sound l
      → Sound (if_set n c l)
  if_set-Sound n c l uses same h = elim (Bool-cases (is_set n l)) [
    | inl on ↦ rw on (
        subst Sound same (
          calls_also-Sound c l (subst (λ o. IsMade o (λ m. made m l.calls)) (sym uses) (h.1 n on))
            h))
    | inr off ↦ rw off h
  ]

  call-Sound : (throws : Spdlog D) (m : Method D) (l : Logger D) → Sound l → Sound (call throws m l)
  unfolding call message message_fmt log_performance log_business change_level shut_down
  call-Sound throws initializes l h = initialize-Sound throws l h
  call-Sound throws (says level words) l h = if_set-Sound main_logger _ l refl refl h
  call-Sound throws (formats level format args) l h = if_set-Sound main_logger _ l refl refl h
  call-Sound throws (performs operation d) l h = if_set-Sound Name.perf_logger _ l refl refl h
  call-Sound throws (does_business event details) l h =
      if_set-Sound Name.business_logger _ l refl refl h
  call-Sound throws (changes_level level) l h = if_set-Sound main_logger _ l refl refl h
  call-Sound throws shuts_down l h = calls_also-Sound shutdown _ tt (
      if_set-Sound Name.business_logger _ _ refl refl (
        if_set-Sound Name.perf_logger _ _ refl refl
          (if_set-Sound main_logger (flush main_logger) l refl refl h)))

  run-Sound :
      (throws : Spdlog D) (ms : List (Method D)) (l : Logger D) → Sound l → Sound (run throws ms l)
  unfolding run
  run-Sound throws [] l h = h
  run-Sound throws (m ∷ ms) l h = run-Sound throws ms (call throws m l) (call-Sound throws m l h)

  -- Whatever methods are called, and wherever spdlog throws in `initialize`: no call of spdlog is
  -- made on a logger that was not made before. So the guards of the methods are enough, also after
  -- an initialization that failed half way.
  pub run-IsGuarded :
      (throws : Spdlog D) (ms : List (Method D)) → IsGuarded (run throws ms create).calls
  run-IsGuarded throws ms = (run-Sound throws ms create (unfold create in tt, not_set D)).0
