-- ===== src/Tests/Epoll.antt =====
-- An epoll instance in memory, for the theorems about src/network/poller.cpp.
use order_engine.Prelude.{
  ℕ, none, some, ◌≡◌, Map, lookup, insert, erase, lookup-insert, lookup-erase, nat_eq, arith,
}
use order_engine.Poller.{Epoll, IsEpoll, Event, Op, ctl_add, ctl_mod, ctl_del, changed}

unfoldable pub memory_ctl : Map ℕ Event → Op → ℕ → Event → Map ℕ Event
memory_ctl k ctl_add fd e = elim (lookup fd k) [ none ↦ insert fd e k | some _ ↦ k ]
memory_ctl k ctl_mod fd e = elim (lookup fd k) [ none ↦ k | some _ ↦ insert fd e k ]
memory_ctl k ctl_del fd e = erase fd k

abbrev pub memory : Epoll
memory = record { Kernel = Map ℕ Event; interest = λ k fd. lookup fd k; ctl = memory_ctl }

memory-add :
    (k : Map ℕ Event) (fd j : ℕ) (e : Event)
    → lookup fd k ≡ none
    → lookup j (memory_ctl k ctl_add fd e) ≡ changed fd (some e) (λ i. lookup i k) j
unfolding memory_ctl
memory-add k fd j e h = ground (arith, lookup-insert fd j e k)

memory-mod :
    (k : Map ℕ Event) (fd j : ℕ) (e old : Event)
    → lookup fd k ≡ some old
    → lookup j (memory_ctl k ctl_mod fd e) ≡ changed fd (some e) (λ i. lookup i k) j
unfolding memory_ctl
memory-mod k fd j e old h = ground (arith, lookup-insert fd j e k)

memory-del :
    (k : Map ℕ Event) (fd j : ℕ) (e old : Event)
    → lookup fd k ≡ some old
    → lookup j (memory_ctl k ctl_del fd e) ≡ changed fd none (λ i. lookup i k) j
unfolding memory_ctl
memory-del k fd j e old h = ground (arith, lookup-erase fd j k)

pub memory-IsEpoll : IsEpoll memory
memory-IsEpoll = record { ctl-add = memory-add; ctl-mod = memory-mod; ctl-del = memory-del }
