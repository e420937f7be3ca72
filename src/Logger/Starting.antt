-- ===== src/Logger/Starting.antt =====
-- `Logger::initialize` (src/common/logger.cpp).
use order_engine.Prelude.{
  Bool, true, false, ◌||◌, ◌⊎◌, Bool-cases, inl, inr, List, [], ◌∷◌, ◌≡◌, refl, sym, subst, arith,
}
use order_engine.Logger.{
  Name, main_logger, Call, Logger, Spdlog, register_logger, shutdown, calls_also, assigned, is_set,
  if_set, try_calls, initialize_calls, initialize, message, message_fmt, log_performance,
  log_business, change_level, Method, initializes, says, formats, performs, does_business,
  changes_level, shuts_down, call, run,
}
use order_engine.Logger.Guards.{same_name, assigned-calls}

same_name-eq : (m n : Name) → same_name m n ≡ true → m ≡ n
same_name-eq main_logger main_logger h = refl
same_name-eq Name.perf_logger Name.perf_logger h = refl
same_name-eq Name.business_logger Name.business_logger h = refl
same_name-eq _ _ h = absurd (cc)

module _ {D : Type 0} where
  -- The registry of spdlog has the name.
  abbrev pub registered : Name → List (Call D) → Bool
  registered n [] = false
  registered n (shutdown ∷ cs) = false
  registered n (register_logger m ∷ cs) = same_name m n || registered n cs
  registered n (_ ∷ cs) = registered n cs

  -- What spdlog documents: a name that is registered cannot be registered again.
  abbrev pub IsRegistry : Spdlog D → Type 0
  IsRegistry throws =
      (n : Name) (cs : List (Call D))
      → registered n cs ≡ true
      → throws cs (register_logger n) ≡ true

  abbrev is_shutdown : Method D → Bool
  is_shutdown shuts_down = true
  is_shutdown _ = false

  abbrev shuts : List (Method D) → Bool
  shuts [] = false
  shuts (m ∷ ms) = is_shutdown m || shuts ms

  -- Of a block of calls: whether it registers a name, and whether it shuts spdlog down.
  abbrev registers : Name → List (Call D) → Bool
  registers n [] = false
  registers n (register_logger m ∷ cs) = same_name m n || registers n cs
  registers n (_ ∷ cs) = registers n cs

  abbrev Stays : List (Call D) → Type 0
  Stays [] = Unit
  Stays (shutdown ∷ cs) = ⊥
  Stays (_ ∷ cs) = Stays cs

  abbrev IsKept : Call D → Type 0
  IsKept shutdown = ⊥
  IsKept _ = Unit

  Stays-head : (c : Call D) (cs : List (Call D)) → Stays (c ∷ cs) → IsKept c × Stays cs
  Stays-head shutdown cs h = absurd h
  Stays-head _ cs h = (tt, h)

  registered-cons :
      (n : Name) (c : Call D) (cs : List (Call D))
      → IsKept c
      → registered n cs ≡ true
      → registered n (c ∷ cs) ≡ true
  registered-cons n (register_logger m) cs k h = ground (arith, h)
  registered-cons n shutdown cs k h = absurd k
  registered-cons n _ cs k h = h

  registered-assigned :
      (n : Name) (c : Call D) (l : Logger D)
      → registered n (c ∷ l.calls) ≡ true
      → registered n (assigned c (calls_also c l)).calls ≡ true
  registered-assigned n c l h =
      subst (λ cs. registered n cs ≡ true) (sym (assigned-calls c (calls_also c l))) h

  try_calls-registered :
      (throws : Spdlog D) (n : Name) (cs : List (Call D)) (l : Logger D)
      → Stays cs
      → registered n l.calls ≡ true
      → registered n (try_calls throws cs l).0.calls ≡ true
  unfolding try_calls
  try_calls-registered throws n [] l k h = h
  try_calls-registered throws n (c ∷ cs) l k h =
      let (keeps, others) = Stays-head c cs k in
      elim (Bool-cases (throws l.calls c)) [
        | inl thrown ↦ rw thrown h
        | inr fine ↦ rw fine (
            try_calls-registered throws n cs (assigned c (calls_also c l)) others
              (registered-assigned n c l (registered-cons n c l.calls keeps h)))
      ]

  -- Whether the first call registers the name, or a later one does.
  registers-cons :
      (n : Name) (c : Call D) (cs : List (Call D))
      → registers n (c ∷ cs) ≡ true
      → ((m : Name) × (c ≡ register_logger m) × (same_name m n ≡ true)) ⊎ (registers n cs ≡ true)
  registers-cons n (register_logger m) cs h = elim (Bool-cases (same_name m n)) [
    | inl same ↦ inl (m, refl, same)
    | inr other ↦ inr (rw other at h)
  ]
  registers-cons n _ cs h = inr h

  registered-register :
      (n m : Name) (c : Call D) (cs : List (Call D))
      → c ≡ register_logger m
      → same_name m n ≡ true
      → registered n (c ∷ cs) ≡ true
  registered-register n m c cs e same = rw e (rw same refl)

  -- A block that ended has registered what it registers.
  try_calls-registers :
      (throws : Spdlog D) (n : Name) (cs : List (Call D)) (l : Logger D)
      → Stays cs
      → registers n cs ≡ true
      → (try_calls throws cs l).1 ≡ true
      → registered n (try_calls throws cs l).0.calls ≡ true
  unfolding try_calls
  try_calls-registers throws n [] l k r done = absurd (cc)
  try_calls-registers throws n (c ∷ cs) l k r done =
      let (keeps, others) = Stays-head c cs k in
      elim (Bool-cases (throws l.calls c)) [
        | inl thrown ↦ absurd (cc (rw thrown at done))
        | inr fine ↦ rw fine (elim (registers-cons n c cs r) [
          | inl (m, e, same) ↦
              try_calls-registered throws n cs (assigned c (calls_also c l)) others
                (registered-assigned n c l (registered-register n m c l.calls e same))
          | inr later ↦
              try_calls-registers throws n cs (assigned c (calls_also c l)) others later
                (rw fine at done)
        ])
      ]

  -- A block that registers a registered name does not end.
  try_calls-again :
      (throws : Spdlog D) (n : Name) (cs : List (Call D)) (l : Logger D)
      → IsRegistry throws
      → Stays cs
      → registers n cs ≡ true
      → registered n l.calls ≡ true
      → (try_calls throws cs l).1 ≡ false
  unfolding try_calls
  try_calls-again throws n [] l law k r h = absurd (cc)
  try_calls-again throws n (c ∷ cs) l law k r h =
      let (keeps, others) = Stays-head c cs k in
      elim (Bool-cases (throws l.calls c)) [
        | inl thrown ↦ rw thrown refl
        | inr fine ↦ rw fine (elim (registers-cons n c cs r) [
          | inl (m, e, same) ↦
              let names = same_name-eq m n same in let thrown = law n l.calls h in absurd (cc)
          | inr later ↦
              try_calls-again throws n cs (assigned c (calls_also c l)) law others later
                (registered-assigned n c l (registered-cons n c l.calls keeps h))
        ])
      ]

initialize_calls-Stays : (D : Type 0) → Stays (initialize_calls {D = D})
unfolding initialize_calls
initialize_calls-Stays D = tt

initialize_calls-registers : (D : Type 0) → registers main_logger (initialize_calls {D = D}) ≡ true
unfolding initialize_calls
initialize_calls-registers D = refl

module _ {D : Type 0} (throws : Spdlog D) where
  if_set-registered :
      (n m : Name) (c : Call D) (l : Logger D)
      → IsKept c
      → registered n l.calls ≡ true
      → registered n (if_set m c l).calls ≡ true
  if_set-registered n m c l k h = elim (Bool-cases (is_set m l)) [
    | inl on ↦ rw on (registered-cons n c l.calls k h)
    | inr off ↦ rw off h
  ]

  call-registered :
      (n : Name) (m : Method D) (l : Logger D)
      → is_shutdown m ≡ false
      → registered n l.calls ≡ true
      → registered n (call throws m l).calls ≡ true
  unfolding call initialize message message_fmt log_performance log_business change_level
  call-registered n initializes l k h =
      try_calls-registered throws n initialize_calls l (initialize_calls-Stays D) h
  call-registered n (says level words) l k h = if_set-registered n main_logger _ l tt h
  call-registered n (formats level format args) l k h = if_set-registered n main_logger _ l tt h
  call-registered n (performs operation d) l k h = if_set-registered n Name.perf_logger _ l tt h
  call-registered n (does_business event details) l k h =
      if_set-registered n Name.business_logger _ l tt h
  call-registered n (changes_level level) l k h = if_set-registered n main_logger _ l tt h
  call-registered n shuts_down l k h = absurd (cc)

  run-registered :
      (n : Name) (ms : List (Method D)) (l : Logger D)
      → shuts ms ≡ false
      → registered n l.calls ≡ true
      → registered n (run throws ms l).calls ≡ true
  unfolding run
  run-registered n [] l k h = h
  run-registered n (m ∷ ms) l k h = elim (Bool-cases (is_shutdown m)) [
    | inl down ↦ absurd (cc (rw down at k))
    | inr up ↦ run-registered n ms (call throws m l) (rw up at k) (call-registered n m l up h)
  ]

  -- Where spdlog refuses a name that is registered: after an `initialize` that returned true and any
  -- further calls of methods but `shutdown`, `initialize` returns false.
  pub initialize-again :
      (law : IsRegistry throws)
      → (l : Logger D) (ms : List (Method D)) → (initialize throws l).1 ≡ true
      → shuts ms ≡ false
      → (initialize throws (run throws ms (initialize throws l).0)).1 ≡ false
  unfolding initialize
  initialize-again law l ms done k =
      let registers_main = initialize_calls-registers D in
      let stays = initialize_calls-Stays D in
      let after = (try_calls throws initialize_calls l).0 in
      try_calls-again throws main_logger initialize_calls (run throws ms after) law stays
        registers_main
        (run-registered main_logger ms after k
          (try_calls-registers throws main_logger initialize_calls l stays registers_main done))
