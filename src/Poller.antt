-- ===== src/Poller.antt =====
-- `EpollPoller` of include/network/poller.h and src/network/poller.cpp. The kernel's epoll instance
-- is a parameter: its state, what it watches, and `epoll_ctl`.
pub mod Watch
pub mod Poll
pub mod Select
use order_engine.Prelude.{
  ℕ, ◌*◌, Bool, true, false, Option, none, some, List, [], ◌∷◌, ◌≡◌, ◌==◌, if◌then◌else◌, Map,
  insert, erase, nat_eq, length, ltb,
}
use order_engine.Channel.{Channel, Index, new, added, deleted, is_none_event}

-- EPOLL_CTL_ADD, EPOLL_CTL_MOD, EPOLL_CTL_DEL
pub data Op : Type 0 where
  ctl_add ctl_mod ctl_del : Op

-- `struct epoll_event`: the mask and the pointer.
pub record Event : Type 0 where
  pub events : ℕ
  pub ptr : ℕ

abbrev pub event_of : Channel → Event
event_of c = record { events = c.events; ptr = c.address }

-- An epoll instance: what it watches for a descriptor, and `epoll_ctl`, whose
-- result the program only logs.
pub record Epoll : Type 1 where
  pub Kernel : Type 0
  pub interest : Kernel → ℕ → Option Event
  pub ctl : Kernel → Op → ℕ → Event → Kernel

abbrev pub changed : {A : Type 0} → ℕ → A → (ℕ → A) → ℕ → A
changed fd a f j = if fd == j then a else f j

-- What epoll_ctl(2) documents, for open descriptors and without a shortage of memory: a descriptor
-- that is not watched can be added, and a watched one changed or removed.
pub record IsEpoll (E : Epoll) : Type 0 where
  pub ctl-add :
      (k : E.Kernel) (fd j : ℕ) (e : Event)
      → E.interest k fd ≡ none
      → E.interest (E.ctl k ctl_add fd e) j ≡ changed fd (some e) (E.interest k) j
  pub ctl-mod :
      (k : E.Kernel) (fd j : ℕ) (e old : Event)
      → E.interest k fd ≡ some old
      → E.interest (E.ctl k ctl_mod fd e) j ≡ changed fd (some e) (E.interest k) j
  pub ctl-del :
      (k : E.Kernel) (fd j : ℕ) (e old : Event)
      → E.interest k fd ≡ some old
      → E.interest (E.ctl k ctl_del fd e) j ≡ changed fd none (E.interest k) j

-- The fields of `EpollPoller`; `capacity` is `events_.size()`.
pub record Poller (E : Epoll) : Type 0 where
  pub kernel : E.Kernel
  pub channels : Map ℕ ℕ
  pub capacity : ℕ

-- `kInitEventListSize`
abbrev init_event_list_size : ℕ
init_event_list_size = 16

module _ {E : Epoll} where
  -- `EpollPoller(reactor)`, where `epoll_create1` gave the instance `k`.
  unfoldable pub create : E.Kernel → Poller E
  create k = record { kernel = k; channels = []; capacity = init_event_list_size }

  -- A failure of `epoll_ctl` is logged, and nothing else.
  unfoldable pub update : Poller E → Op → Channel → Poller E
  update p op c = record p { kernel = (E.ctl p.kernel op c.fd (event_of c)) }

  unfoldable pub update_channel_at : Index → Poller E → Channel → Poller E × Channel
  unfolding update
  update_channel_at new p c =
      let c' = record c { index = added } in
      (update (record p { channels = insert c.fd c.address p.channels }) ctl_add c', c')
  update_channel_at deleted p c = let c' = record c { index = added } in (update p ctl_add c', c')
  update_channel_at added p c =
      if is_none_event c
      then (update p ctl_del c, record c { index = deleted })
      else (update p ctl_mod c, c)

  unfoldable pub update_channel : Poller E → Channel → Poller E × Channel
  unfolding update_channel_at
  update_channel p c = update_channel_at c.index p c

  abbrev remove_at : Index → Poller E → Channel → Poller E
  remove_at added p c = update p ctl_del c
  remove_at _ p c = p

  unfoldable pub remove_channel : Poller E → Channel → Poller E × Channel
  unfolding update
  remove_channel p c = (
    remove_at c.index (record p { channels = erase c.fd p.channels }) c,
    record c { index = new },
  )
