-- ===== src/Server/Balance/Turns.antt =====
-- The turns of the reactors one after the other, as `next_reactor_++ % thread_num_` gives them
-- (src/network/tcp_server.cpp).
use order_engine.Prelude.{
  ℕ, zero, suc, ◌+◌, ◌-◌, ◌%◌, ◌<◌, ◌≤◌, ◌≡◌, refl, sym, ◌∙◌, ◌==◌, ==_iff, if◌then◌else◌, arith,
  Bool-cases, inl, inr, ltb,
}
use native.Mathlib.Nat.{mod-add-mod, mod_self, mod-eq_of_lt, mod-lt}

-- How often it is the turn of a reactor in the next turns, of `n` reactors, if it is its turn after
-- `d` others.
abbrev pub turns : ℕ → ℕ → ℕ → ℕ
turns n d zero = 0
turns n zero (suc k) = suc (turns n (n - 1) k)
turns n (suc d) (suc k) = turns n d k

-- A reactor whose turn comes first is ahead by at most one.
turns_near :
    (n a b k : ℕ) → a ≤ b → b < n → (turns n b k ≤ turns n a k) × (turns n a k ≤ turns n b k + 1)
turns_near n a b zero le less = (omega arith, omega arith)
turns_near n zero zero (suc k) le less = (omega arith, omega arith)
turns_near n zero (suc b) (suc k) le less =
    let (x, y) = turns_near n b (n - 1) k (omega arith) (omega arith) in (omega arith, omega arith)
turns_near n (suc a) zero (suc k) le less = absurd (omega arith)
turns_near n (suc a) (suc b) (suc k) le less = turns_near n a b k (omega arith) (omega arith)

pub turns_apart : (n a b k : ℕ) → a < n → b < n → turns n a k ≤ turns n b k + 1
turns_apart n a b k less more = elim (Bool-cases (ltb a b)) [
  | inl e ↦ (turns_near n a b k (ground arith) more).1
  | inr e ↦ let le = (turns_near n b a k (ground arith) less).0 in omega (arith, le)
]

-- After how many turns it is that of `i`, if it is that of `r` now.
abbrev pub distance : ℕ → ℕ → ℕ → ℕ
distance n r i = if ltb i r then i + n - r else i - r

-- The turn after that of `r`.
abbrev pub next_turn : ℕ → ℕ → ℕ
next_turn n r = if r + 1 == n then 0 else r + 1

pub mod_step : (t n : ℕ) → 0 < n → (t + 1) % n ≡ next_turn n (t % n)
mod_step t n some_reactor = sym (mod-add-mod t n 1) ∙ elim (Bool-cases (t % n + 1 == n)) [
  | inl e ↦ rw ((==_iff (t % n + 1) n).0 e) (mod_self n ∙ rw ((==_iff n n).1 refl) refl)
  | inr e ↦ rw e (mod-eq_of_lt (ground (arith, mod-lt t some_reactor)))
]

pub turns_step :
    (n r i k : ℕ)
    → r < n
    → i < n
    → turns n (distance n r i) (suc k)
      ≡ (if r == i then 1 else 0) + turns n (distance n (next_turn n r) i) k
turns_step n r i k less bound = elim (Bool-cases (r == i)) [
  | inl e ↦
      let none_before : distance n r i ≡ 0 = ground arith in
      let all_others : distance n (next_turn n r) i ≡ n - 1 = ground arith in
      rw (none_before, all_others, e) (omega arith)
  | inr e ↦
      let before : distance n r i ≡ suc (distance n (next_turn n r) i) = ground arith in
      rw (before, e) (omega arith)
]

pub distance-lt : (n r i : ℕ) → r < n → i < n → distance n r i < n
distance-lt n r i less bound = ground arith
