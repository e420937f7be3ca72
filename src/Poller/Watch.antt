-- ===== src/Poller/Watch.antt =====
-- One channel on the poller: what epoll watches for its descriptor, and that no other descriptor is
-- touched. (`updateChannel` and `removeChannel` of src/network/poller.cpp)
use order_engine.Prelude.{
  ℕ, Option, none, some, ◌≡◌, ◌≢◌, refl, arith, lookup, lookup-insert, lookup-erase, nat_eq, erase,
  ◌∙◌,
}
use order_engine.Channel.{Channel, Index, new, added, deleted}
use order_engine.Poller.{
  Epoll, IsEpoll, Event, Poller, changed, event_of, update, update_channel, update_channel_at,
  remove_channel, remove_at,
}

-- What epoll should watch for a channel with this index, and what `channels_` should hold.
abbrev pub watched : Index → Event → Option Event
watched added e = some e
watched _ e = none

abbrev pub recorded : Index → ℕ → Option ℕ
recorded new a = none
recorded _ a = some a

module _ {E : Epoll} (laws : IsEpoll E) where
  open laws use {ctl-add, ctl-mod, ctl-del}

  -- The poller and the kernel hold of the channel what its index says; the mask in the kernel may
  -- be an old one.
  pub record Holds (p : Poller E) (c : Channel) (mask : ℕ) : Type 0 where
    pub watches :
        E.interest p.kernel c.fd ≡ watched c.index (record { events = mask; ptr = c.address })
    pub records : lookup c.fd p.channels ≡ recorded c.index c.address

  update_channel_at-watches :
      (x : Index) (p : Poller E) (c : Channel) (mask : ℕ)
      → E.interest p.kernel c.fd ≡ watched x (record { events = mask; ptr = c.address })
      → c.index ≡ x
      → E.interest (update_channel_at x p c).0.kernel c.fd
        ≡ watched (update_channel_at x p c).1.index (event_of c)
  unfolding update_channel_at
  update_channel_at-watches new p c mask h e =
      ground (arith, ctl-add p.kernel c.fd c.fd (event_of c) h)
  update_channel_at-watches deleted p c mask h e =
      ground (arith, ctl-add p.kernel c.fd c.fd (event_of c) h)
  update_channel_at-watches added p c mask h e = ground (
    arith,
    ctl-mod p.kernel c.fd c.fd (event_of c) _ h,
    ctl-del p.kernel c.fd c.fd (event_of c) _ h,
  )

  update_channel_at-others :
      (x : Index) (p : Poller E) (c : Channel) (mask j : ℕ)
      → E.interest p.kernel c.fd ≡ watched x (record { events = mask; ptr = c.address })
      → c.fd ≢ j
      → E.interest (update_channel_at x p c).0.kernel j ≡ E.interest p.kernel j
  unfolding update_channel_at
  update_channel_at-others new p c mask j h ne =
      ground (arith, ctl-add p.kernel c.fd j (event_of c) h)
  update_channel_at-others deleted p c mask j h ne =
      ground (arith, ctl-add p.kernel c.fd j (event_of c) h)
  update_channel_at-others added p c mask j h ne =
      ground
        (arith, ctl-mod p.kernel c.fd j (event_of c) _ h, ctl-del p.kernel c.fd j (event_of c) _ h)

  update_channel_at-records :
      (x : Index) (p : Poller E) (c : Channel)
      → lookup c.fd p.channels ≡ recorded x c.address
      → c.index ≡ x
      → lookup c.fd (update_channel_at x p c).0.channels
        ≡ recorded (update_channel_at x p c).1.index c.address
  unfolding update_channel_at
  update_channel_at-records new p c h e =
      ground (arith, lookup-insert c.fd c.fd c.address p.channels)
  update_channel_at-records deleted p c h e = ground arith
  update_channel_at-records added p c h e = ground arith

  update_channel_at-records_others :
      (x : Index) (p : Poller E) (c : Channel) (j : ℕ)
      → c.fd ≢ j
      → lookup j (update_channel_at x p c).0.channels ≡ lookup j p.channels
  unfolding update_channel_at
  update_channel_at-records_others new p c j ne =
      ground (arith, lookup-insert c.fd j c.address p.channels)
  update_channel_at-records_others deleted p c j ne = refl
  update_channel_at-records_others added p c j ne = ground arith

  -- `updateChannel` writes only the index of the channel itself.
  update_channel_at-same :
      (x : Index) (p : Poller E) (c : Channel)
      → (update_channel_at x p c).1 ≡ record c { index = (update_channel_at x p c).1.index }
  unfolding update_channel_at
  update_channel_at-same new p c = refl
  update_channel_at-same deleted p c = refl
  update_channel_at-same added p c = ground arith

  pub update_channel-same :
      (p : Poller E) (c : Channel)
      → (update_channel p c).1 ≡ record c { index = (update_channel p c).1.index }
  unfolding update_channel
  update_channel-same p c = update_channel_at-same c.index p c

  -- After `updateChannel` epoll watches the channel with its present mask, exactly if its index
  -- says so.
  pub update_channel-Holds :
      (p : Poller E) (c : Channel) (mask : ℕ)
      → Holds p c mask
      → Holds (update_channel p c).0 (update_channel p c).1 c.events
  unfolding update_channel
  update_channel-Holds p c mask h =
      let same = update_channel_at-same c.index p c in
      record {
        watches = rw same (rw same at (update_channel_at-watches c.index p c mask h.watches refl));
        records = rw same (rw same at (update_channel_at-records c.index p c h.records refl));
      }

  -- Any other descriptor is watched as before.
  pub update_channel-interest :
      (p : Poller E) (c : Channel) (mask j : ℕ)
      → Holds p c mask
      → c.fd ≢ j
      → E.interest (update_channel p c).0.kernel j ≡ E.interest p.kernel j
  unfolding update_channel
  update_channel-interest p c mask j h ne = update_channel_at-others c.index p c mask j h.watches ne

  -- A channel with another descriptor is held as before.
  pub update_channel-others :
      (p : Poller E) (c d : Channel) (mask m : ℕ)
      → Holds p c mask
      → c.fd ≢ d.fd
      → Holds p d m
      → Holds (update_channel p c).0 d m
  unfolding update_channel
  update_channel-others p c d mask m h ne held = record {
    watches = update_channel-interest p c mask d.fd h ne ∙ held.watches;
    records = update_channel_at-records_others c.index p c d.fd ne ∙ held.records;
  }

  remove_at-watches :
      (x : Index) (p : Poller E) (c : Channel) (mask j : ℕ)
      → E.interest p.kernel c.fd ≡ watched x (record { events = mask; ptr = c.address })
      → E.interest (remove_at x p c).kernel j ≡ changed c.fd none (E.interest p.kernel) j
  unfolding update
  remove_at-watches added p c mask j h = ctl-del p.kernel c.fd j (event_of c) _ h
  remove_at-watches new p c mask j h = ground (arith, h)
  remove_at-watches deleted p c mask j h = ground (arith, h)

  remove_at-channels :
      (x : Index) (p : Poller E) (c : Channel) → (remove_at x p c).channels ≡ p.channels
  unfolding update
  remove_at-channels added p c = refl
  remove_at-channels new p c = refl
  remove_at-channels deleted p c = refl

  -- After `removeChannel` nothing is left of the channel in the poller or in the kernel.
  pub remove_channel-Holds :
      (p : Poller E) (c : Channel) (mask : ℕ)
      → Holds p c mask
      → ((remove_channel p c).1 ≡ record c { index = new })
        × (E.interest (remove_channel p c).0.kernel c.fd ≡ none)
        × (lookup c.fd (remove_channel p c).0.channels ≡ none)
  unfolding remove_channel
  remove_channel-Holds p c mask h =
      let q = record p { channels = erase c.fd p.channels } in
      (
        refl,
        ground (arith, remove_at-watches c.index q c mask c.fd h.watches),
        rw (remove_at-channels c.index q c, lookup-erase c.fd c.fd p.channels) (ground arith),
      )

  pub remove_channel-interest :
      (p : Poller E) (c : Channel) (mask j : ℕ)
      → Holds p c mask
      → c.fd ≢ j
      → E.interest (remove_channel p c).0.kernel j ≡ E.interest p.kernel j
  unfolding remove_channel
  remove_channel-interest p c mask j h ne =
      let q = record p { channels = erase c.fd p.channels } in
      ground (arith, remove_at-watches c.index q c mask j h.watches)

  pub remove_channel-others :
      (p : Poller E) (c d : Channel) (mask m : ℕ)
      → Holds p c mask
      → c.fd ≢ d.fd
      → Holds p d m
      → Holds (remove_channel p c).0 d m
  unfolding remove_channel
  remove_channel-others p c d mask m h ne held =
      let q = record p { channels = erase c.fd p.channels } in
      record {
        watches = remove_channel-interest p c mask d.fd h ne ∙ held.watches;
        records =
            rw (remove_at-channels c.index q c, lookup-erase c.fd d.fd p.channels)
              (ground (arith, held.records));
      }
