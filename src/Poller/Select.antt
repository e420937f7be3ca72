-- ===== src/Poller/Select.antt =====
-- The Windows side: `SelectPoller` of include/network/poller.h and src/network/poller.cpp, and the
-- constants and `handleEvent` of src/network/channel.cpp for it. Channels are found by their
-- addresses. What `select` returns is an argument.
pub mod Table
pub mod Sets
pub mod Ready
use Prim.Native.Nat.{bit_or}
use order_engine.Prelude.{
  ℕ, Bool, true, false, Option, none, some, List, [], ◌∷◌, ◌++◌, ◌==◌, ◌||◌, ltb, length,
  if◌then◌else◌, Map, lookup, insert, erase, nat_eq,
}
use order_engine.Channel.{Channel, Callbacks, call_if, has}
use order_engine.Poller.{changed}

-- `Channel::kReadEvent`, `kWriteEvent` and `kErrorEvent` under _WIN32.
abbrev pub read_event : ℕ
read_event = 1

abbrev pub write_event : ℕ
write_event = 2

abbrev error_event : ℕ
error_event = 4

unfoldable pub is_reading : Channel → Bool
is_reading c = has c.events read_event

unfoldable pub is_writing : Channel → Bool
is_writing c = has c.events write_event

-- `handleEvent()` under _WIN32, which knows no close callback.
unfoldable pub handle_event {ℓ} : {S : Type ℓ} → Callbacks S → Channel → S → S
handle_event cb c s =
    let s1 = call_if (has c.revents error_event) cb.on_error s in
    let s2 = call_if (has c.revents read_event) cb.on_read s1 in
    call_if (has c.revents write_event) cb.on_write s2

-- Every channel, by its address.
abbrev pub Heap : Type 0
Heap = ℕ → Channel

-- `fd_set` of winsock2.h, three times: the descriptors in its array.
pub record FdSets : Type 0 where
  pub read : List ℕ
  pub write : List ℕ
  pub except : List ℕ

-- `FD_SETSIZE` of winsock2.h.
abbrev pub fd_setsize : ℕ
fd_setsize = 64

-- `FD_ISSET(fd, &set)`
abbrev pub is_set : ℕ → List ℕ → Bool
is_set fd [] = false
is_set fd (x ∷ set) = x == fd || is_set fd set

-- `FD_SET(fd, &set)`: nothing is added to a full set.
unfoldable pub fd_set : ℕ → List ℕ → List ℕ
fd_set fd set = if is_set fd set then set else if ltb (length set) fd_setsize then fd ∷ set else set

-- What `select` returned: a negative result, 0, or the sets that it left.
pub data Selected : Type 0 where
  failure timeout : Selected
  ready : FdSets → Selected

pub record SelectPoller : Type 0 where
  pub channels : Map ℕ ℕ
  pub polled_channels : List ℕ

-- `SelectPoller(reactor)`
unfoldable pub create : SelectPoller
create = record { channels = []; polled_channels = [] }

abbrev add_channel : Option ℕ → ℕ → ℕ → SelectPoller → SelectPoller
add_channel none fd a p = record {
  channels = insert fd a p.channels;
  polled_channels = p.polled_channels ++ a ∷ [];
}
add_channel (some b) fd a p = p

-- `updateChannel` of the channel with the address `a`.
unfoldable pub update_channel : Heap → ℕ → SelectPoller → SelectPoller
update_channel h a p = add_channel (lookup (h a).fd p.channels) (h a).fd a p

-- `erase(find(...))`
unfoldable pub erase_first : ℕ → List ℕ → List ℕ
erase_first a [] = []
erase_first a (x ∷ xs) = if x == a then xs else x ∷ erase_first a xs

abbrev drop_channel : Option ℕ → ℕ → ℕ → SelectPoller → SelectPoller
drop_channel none fd a p = p
drop_channel (some b) fd a p = record {
  channels = erase fd p.channels;
  polled_channels = erase_first a p.polled_channels;
}

unfoldable pub remove_channel : Heap → ℕ → SelectPoller → SelectPoller
unfolding erase_first
remove_channel h a p = drop_channel (lookup (h a).fd p.channels) (h a).fd a p

-- `FD_SET(fd, &set)` under a test.
abbrev pub add_if : Bool → ℕ → List ℕ → List ℕ
add_if b fd set = if b then fd_set fd set else set

-- The loop of `poll` that fills the sets.
unfoldable pub fill_sets : Heap → List ℕ → FdSets → FdSets
unfolding is_reading is_writing fd_set
fill_sets h [] s = s
fill_sets h (a ∷ rest) s =
    let c = h a in
    fill_sets h rest (record {
      read = add_if (is_reading c) c.fd s.read;
      write = add_if (is_writing c) c.fd s.write;
      except = fd_set c.fd s.except;
    })

-- FD_ZERO
abbrev pub no_fds : FdSets
no_fds = record { read = []; write = []; except = [] }

abbrev pub flag : Bool → ℕ → ℕ
flag b mask = if b then mask else 0

-- The events of a descriptor in the sets.
unfoldable pub revents_of : FdSets → ℕ → ℕ
revents_of s fd =
    bit_or (bit_or (flag (is_set fd s.read) read_event) (flag (is_set fd s.write) write_event))
      (flag (is_set fd s.except) error_event)

-- The loop of `poll` over the result.
unfoldable pub collect : FdSets → List ℕ → Heap → List ℕ → Heap × List ℕ
collect s [] h active = (h, active)
collect s (a ∷ rest) h active =
    let r = revents_of s (h a).fd in
    collect s rest (if r == 0 then h else changed a (record (h a) { revents = r }) h)
      (if r == 0 then active else active ++ a ∷ [])

abbrev poll_some : Selected → List ℕ → Heap → List ℕ → Heap × List ℕ
poll_some failure polled h active = (h, active)
poll_some timeout polled h active = (h, active)
poll_some (ready s) polled h active = collect s polled h active

-- `select` gives a `Selected` for the sets that it is asked for; it is not called without channels.
abbrev pub poll_list : (FdSets → Selected) → List ℕ → Heap → List ℕ → Heap × List ℕ
poll_list select [] h active = (h, active)
poll_list select (a ∷ rest) h active =
    poll_some (select (fill_sets h (a ∷ rest) no_fds)) (a ∷ rest) h active

unfoldable pub poll : (FdSets → Selected) → SelectPoller → Heap → List ℕ → Heap × List ℕ
unfolding fill_sets collect
poll select p h active = poll_list select p.polled_channels h active
