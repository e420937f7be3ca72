-- ===== src/Server/Threads/Refused.antt =====
-- What becomes of a program whose server is refused a thread (src/network/tcp_server.cpp).
use order_engine.Prelude.{
  ℕ, zero, suc, ◌+◌, ◌≤◌, ◌<◌, ◌≡◌, subst, append-nil, append_assoc, refl, ap, sym, ◌∙◌, Bool, true,
  false, some, [], ◌∷◌, ◌++◌, ◌==◌, ==_iff, if◌then◌else◌, ◌||◌, arith, Bool-cases, inl, inr,
}
use order_engine.Reactor
use order_engine.Reactor.{Eventfd}
use order_engine.Server.{TcpServer, Left, replicate, start_reactors, stop, close_all}
use order_engine.Server.Threads.{
  Threads, End, exits, terminates, add_reactors, add_main, start_threads, with_main, stop_threads,
  is_joinable, unwind,
}

-- One thread fewer to ask for, beside one more.
later :
    (allows : ℕ → Bool) (d n : ℕ)
    → ((j : ℕ) → j < suc n → allows (d + j) ≡ true)
    → (j : ℕ) → j < n
    → allows (d + 1 + j) ≡ true
later allows d n ok j less = subst (λ e. allows e ≡ true) (omega arith) (ok (suc j) (omega arith))

first :
    (allows : ℕ → Bool) (d n : ℕ) → ((j : ℕ) → j < suc n → allows (d + j) ≡ true) → allows d ≡ true
first allows d n ok = subst (λ e. allows e ≡ true) (omega arith) (ok 0 (omega arith))

module _ {F : Eventfd} (me : ℕ) (counter : F.Counter) (allows : ℕ → Bool) where
  -- With `n` more sub-reactors and their threads.
  abbrev pub grown : ℕ → Threads F → Threads F
  grown n t = record t {
    server = (record t.server {
      sub_reactors = t.server.sub_reactors ++ replicate n (Reactor.create counter me);
    });
    reactor_threads = t.reactor_threads + n;
  }

  pub add_reactors-all :
      (n : ℕ) (t : Threads F)
      → ((j : ℕ) → j < n → allows (t.reactor_threads + j) ≡ true)
      → add_reactors me counter allows n t ≡ (true, grown n t)
  unfolding add_reactors
  add_reactors-all zero t ok =
      let same : t.reactor_threads + 0 ≡ t.reactor_threads = omega arith in
      rw (append-nil t.server.sub_reactors, same) refl
  add_reactors-all (suc n) t ok =
      let r : Reactor.Reactor F ℕ = Reactor.create counter me in
      let d = t.reactor_threads in
      let same : d + 1 + n ≡ d + suc n = omega arith in
      rw (first allows d n ok) (
        add_reactors-all n _ (later allows d n ok)
        ∙ rw (append_assoc t.server.sub_reactors (r ∷ []) (replicate n r), same) refl)

  -- Refused the thread beside `i` others: these run.
  abbrev Partial : Bool × Threads F → ℕ → Threads F → Type 0
  Partial o i t =
      (o.0 ≡ false)
      × (o.1.reactor_threads ≡ i)
      × (o.1.server.running ≡ t.server.running)
      × (o.1.main_thread ≡ t.main_thread)
      × (o.1.server.connections ≡ t.server.connections)
      × (o.1.server.closed ≡ t.server.closed)

  pub add_reactors-refused :
      (n i : ℕ) (t : Threads F)
      → i < n
      → ((j : ℕ) → j < i → allows (t.reactor_threads + j) ≡ true)
      → allows (t.reactor_threads + i) ≡ false
      → Partial (add_reactors me counter allows n t) (t.reactor_threads + i) t
  unfolding add_reactors
  add_reactors-refused zero i t less ok refused = absurd (omega arith)
  add_reactors-refused (suc n) zero t less ok refused =
      let same : t.reactor_threads + 0 ≡ t.reactor_threads = omega arith in
      rw (sym (ap allows same) ∙ refused) (refl, sym same, refl, refl, refl, refl)
  add_reactors-refused (suc n) (suc i) t less ok refused =
      let d = t.reactor_threads in
      let same : d + 1 + i ≡ d + suc i = omega arith in
      let (thrown, count, runs, main, rest, shut) =
        add_reactors-refused n i (grown 1 t) (omega arith) (later allows d i ok)
          (ap allows same ∙ refused) in
      rw (first allows d i ok) (thrown, count ∙ same, runs, main, rest, shut)

-- One more sub-reactor than threads was made.
pub add_reactors-made :
    {F : Eventfd} (me : ℕ) (counter : F.Counter) (allows : ℕ → Bool) (n i : ℕ) (t : Threads F)
    → i < n
    → ((j : ℕ) → j < i → allows (t.reactor_threads + j) ≡ true)
    → allows (t.reactor_threads + i) ≡ false
    → (add_reactors me counter allows n t).1.server.sub_reactors
      ≡ t.server.sub_reactors ++ replicate (suc i) (Reactor.create counter me)
unfolding add_reactors
add_reactors-made me counter allows zero i t less ok refused = absurd (omega arith)
add_reactors-made me counter allows (suc n) zero t less ok refused =
    let same : t.reactor_threads + 0 ≡ t.reactor_threads = omega arith in
    rw (sym (ap allows same) ∙ refused) refl
add_reactors-made me counter allows (suc n) (suc i) t less ok refused =
    let d = t.reactor_threads in
    let same : d + 1 + i ≡ d + suc i = omega arith in
    let r = Reactor.create counter me in
    rw (first allows d i ok) (
      add_reactors-made me counter allows n i (grown me counter allows 1 t) (omega arith)
        (later allows d i ok) (ap allows same ∙ refused)
      ∙ append_assoc t.server.sub_reactors (r ∷ []) (replicate (suc i) r))

-- `stop` without connections joins every thread of a running server, and none of another.
unwind-joins :
    {F : Eventfd} (me : ℕ) (left : Left F) (t : Threads F)
    → t.server.connections ≡ []
    → unwind me left t
      ≡ some (if t.server.running then exits 1 else if is_joinable t then terminates else exits 1)
unfolding unwind stop_threads is_joinable stop close_all
unwind-joins me left t none_open = elim (Bool-cases t.server.running) [
  | inl e ↦ rw (e, none_open) refl
  | inr e ↦ rw e refl
]

pub add_main-thrown :
    {F : Eventfd} (allows : ℕ → Bool) (o : Bool × Threads F) → o.0 ≡ false → add_main allows o ≡ o
unfolding add_main
add_main-thrown allows (false, t) e = refl
add_main-thrown allows (true, t) e = absurd (cc)

-- The fate of a program that is refused the thread beside `i` others.
abbrev pub fate : ℕ → ℕ → End
fate i n = if i == 0 || i == n then exits 1 else terminates

pub start_threads-refused :
    {F : Eventfd} (me : ℕ) (left : Left F) (counter : F.Counter) (allows : ℕ → Bool)
    (s : TcpServer F) (i : ℕ)
    → s.running ≡ false
    → s.connections ≡ []
    → i ≤ s.thread_num
    → ((j : ℕ) → j < i → allows j ≡ true)
    → allows i ≡ false
    → ((start_threads me counter allows s).0 ≡ false)
      × (unwind me left (start_threads me counter allows s).1 ≡ some (fate i s.thread_num))
unfolding start_threads add_main
start_threads-refused {F} me left counter allows s i idle none_open less ok refused =
    elim (Bool-cases (i == s.thread_num)) [
      | inl last ↦ late ((==_iff i s.thread_num).0 last)
      | inr before ↦ early before
    ]
  where
    ok0 : (j : ℕ) → j < i → allows (0 + j) ≡ true
    ok0 j l = ap allows (omega arith) ∙ ok j l

    refused0 : allows (0 + i) ≡ false
    refused0 = ap allows (omega arith) ∙ refused

    Ends : Bool × Threads F → Type 0
    Ends o = (o.0 ≡ false) × (unwind me left o.1 ≡ some (fate i s.thread_num))

    early : (i == s.thread_num) ≡ false → Ends (start_threads me counter allows s)
    early before =
        let o = add_reactors me counter allows s.thread_num (with_main me counter s) in
        let (thrown, count, runs, main, rest, shut) =
          add_reactors-refused me counter allows s.thread_num i (with_main me counter s)
            (ground arith) ok0 refused0 in
        rw (add_main-thrown allows o thrown) (
          thrown,
          unwind-joins me left o.1 (rest ∙ none_open)
              ∙ unfold is_joinable in rw (runs ∙ idle, main, count, before) ground arith,
        )

    late : i ≡ s.thread_num → Ends (start_threads me counter allows s)
    late last =
        rw
          (add_reactors-all me counter allows s.thread_num (with_main me counter s)
            (subst (λ n. (j : ℕ) → j < n → allows (0 + j) ≡ true) last ok0))
          (rw (sym (ap (λ n. allows (0 + n)) last) ∙ refused0)
            (refl, unwind-joins me left _ none_open ∙ ground (arith, last)))

-- Where every thread is started, `start` ends as Server says.
pub start_threads-start_reactors :
    {F : Eventfd} (me : ℕ) (counter : F.Counter) (allows : ℕ → Bool) (s : TcpServer F)
    → ((j : ℕ) → j ≤ s.thread_num → allows j ≡ true)
    → start_threads me counter allows s ≡ (
      true,
      record {
        server = start_reactors me counter s;
        reactor_threads = 0 + s.thread_num;
        main_thread = true;
      },
    )
unfolding start_threads add_main start_reactors
start_threads-start_reactors me counter allows s ok =
    rw
      (add_reactors-all me counter allows s.thread_num (with_main me counter s)
        (λ j l. ok (0 + j) (omega arith)))
      (rw (ok (0 + s.thread_num) (omega arith)) refl)
