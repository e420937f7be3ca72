-- ===== src/Channel.antt =====
-- include/network/channel.h and src/network/channel.cpp on Linux: a descriptor, the events that it
-- is interested in, and the dispatch of those that happened. Masks are the bit patterns of `int`.
pub mod Masks
pub mod Dispatch
use Prim.Native.Nat.{bit_and, bit_or}
use order_engine.Prelude.{ℕ, ◌-◌, Bool, not, ◌&&◌, Option, none, some, ◌==◌, if◌then◌else◌}

-- <sys/epoll.h>
abbrev epollin : ℕ
epollin = 0x1

abbrev epollpri : ℕ
epollpri = 0x2

abbrev epollout : ℕ
epollout = 0x4

abbrev epollerr : ℕ
epollerr = 0x8

abbrev epollhup : ℕ
epollhup = 0x10

abbrev epollnval : ℕ
epollnval = 0x20

abbrev epollrdhup : ℕ
epollrdhup = 0x2000

-- `Channel::kNoneEvent`, `kReadEvent` and `kWriteEvent`.
abbrev pub none_event : ℕ
none_event = 0

abbrev pub read_event : ℕ
read_event = bit_or epollin epollpri

abbrev pub write_event : ℕ
write_event = epollout

-- ~mask
abbrev pub complement : ℕ → ℕ
complement mask = 0xffff_ffff - mask

-- `kNew`, `kAdded` and `kDeleted` of `EpollPoller`, the values of `index_`.
pub data Index : Type 0 where
  new added deleted : Index

-- `address` is the object's own address, and `owner` that of its reactor.
pub record Channel : Type 0 where
  pub address : ℕ
  pub owner : ℕ
  pub fd : ℕ
  pub events : ℕ
  pub revents : ℕ
  pub index : Index

-- `Channel(reactor, fd)`
unfoldable pub create : ℕ → ℕ → ℕ → Channel
create address reactor fd = record {
  address = address;
  owner = reactor;
  fd = fd;
  events = 0;
  revents = 0;
  index = new;
}

abbrev pub has : ℕ → ℕ → Bool
has events mask = not (bit_and events mask == 0)

unfoldable pub is_reading : Channel → Bool
is_reading c = has c.events read_event

unfoldable pub is_writing : Channel → Bool
is_writing c = has c.events write_event

unfoldable pub is_none_event : Channel → Bool
is_none_event c = c.events == none_event

-- The methods that change `events_`, up to their call of `update()`.
pub data Change : Type 0 where
  enable_reading disable_reading enable_writing disable_writing disable_all : Change

unfoldable pub change_mask : Change → ℕ → ℕ
change_mask enable_reading e = bit_or e read_event
change_mask disable_reading e = bit_and e (complement read_event)
change_mask enable_writing e = bit_or e write_event
change_mask disable_writing e = bit_and e (complement write_event)
change_mask disable_all e = none_event

unfoldable pub change_events : Change → Channel → Channel
unfolding change_mask
change_events m c = record c { events = change_mask m c.events }

-- The callbacks, each of which may be unset, as they act on a state.
pub record Callbacks {ℓ} (S : Type ℓ) : Type ℓ where
  pub on_close : Option (S → S)
  pub on_error : Option (S → S)
  pub on_read : Option (S → S)
  pub on_write : Option (S → S)

module _ {ℓ} {S : Type ℓ} where
  -- if (callback) callback();
  abbrev pub call : Option (S → S) → S → S
  call none s = s
  call (some f) s = f s

  abbrev pub call_if : Bool → Option (S → S) → S → S
  call_if b f s = if b then call f s else s

-- The tests of `handleEvent()` on `revents_`, in its order.
unfoldable pub hung_up : ℕ → Bool
hung_up r = has r epollhup && not (has r epollin)

unfoldable pub failed : ℕ → Bool
failed r = has r (bit_or epollerr epollnval)

unfoldable pub readable : ℕ → Bool
readable r = has r (bit_or (bit_or epollin epollpri) epollrdhup)

unfoldable pub writable : ℕ → Bool
writable r = has r epollout

unfoldable pub handle_event {ℓ} : {S : Type ℓ} → Callbacks S → Channel → S → S
handle_event cb c s =
    let s1 = call_if (hung_up c.revents) cb.on_close s in
    let s2 = call_if (failed c.revents) cb.on_error s1 in
    let s3 = call_if (readable c.revents) cb.on_read s2 in
    call_if (writable c.revents) cb.on_write s3
