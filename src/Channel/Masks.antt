-- ===== src/Channel/Masks.antt =====
-- The interest masks that the methods of `Channel` can reach. (include/network/channel.h)
use order_engine.Prelude.{ℕ, Bool, true, false, not, ◌||◌, ◌≡◌, refl, ap, ◌∙◌, sym}
use order_engine.Channel.{
  Channel, Change, enable_reading, disable_reading, enable_writing, disable_writing, disable_all,
  change_mask, change_events, is_reading, is_writing, is_none_event,
}

-- The mask of a channel that reads or not, and writes or not.
abbrev pub mask : Bool → Bool → ℕ
mask false false = 0
mask true false = 3
mask false true = 4
mask true true = 7

pub record IsInterest (e : ℕ) : Type 0 where
  pub reads : Bool
  pub writes : Bool
  pub is_mask : e ≡ mask reads writes

-- Whether a channel reads and writes after a change, by what it did before.
abbrev pub reads_after : Change → Bool → Bool
reads_after enable_reading b = true
reads_after disable_reading b = false
reads_after disable_all b = false
reads_after enable_writing b = b
reads_after disable_writing b = b

abbrev pub writes_after : Change → Bool → Bool
writes_after enable_writing b = true
writes_after disable_writing b = false
writes_after disable_all b = false
writes_after enable_reading b = b
writes_after disable_reading b = b

change_mask-mask :
    (m : Change) (r w : Bool) → change_mask m (mask r w) ≡ mask (reads_after m r) (writes_after m w)
unfolding change_mask
change_mask-mask enable_reading false false = refl
change_mask-mask m false false = refl
change_mask-mask enable_reading false true = refl
change_mask-mask m false true = refl
change_mask-mask enable_reading true false = refl
change_mask-mask m true false = refl
change_mask-mask enable_reading true true = refl
change_mask-mask m true true = refl

pub change_mask-IsInterest : (m : Change) (e : ℕ) → IsInterest e → IsInterest (change_mask m e)
change_mask-IsInterest m e i = record {
  reads = reads_after m i.reads;
  writes = writes_after m i.writes;
  is_mask = ap (change_mask m) i.is_mask ∙ change_mask-mask m i.reads i.writes;
}

is_reading-mask : (c : Channel) (i : IsInterest c.events) → is_reading c ≡ i.reads
is_reading-mask c i = ap of_events i.is_mask ∙ table i.reads i.writes
  where
    of_events : ℕ → Bool
    of_events e = is_reading (record c { events = e })

    table : (r w : Bool) → of_events (mask r w) ≡ r
    table false false = unfold is_reading in refl
    table false true = unfold is_reading in refl
    table true false = unfold is_reading in refl
    table true true = unfold is_reading in refl

is_writing-mask : (c : Channel) (i : IsInterest c.events) → is_writing c ≡ i.writes
is_writing-mask c i = ap of_events i.is_mask ∙ table i.reads i.writes
  where
    of_events : ℕ → Bool
    of_events e = is_writing (record c { events = e })

    table : (r w : Bool) → of_events (mask r w) ≡ w
    table false false = unfold is_writing in refl
    table false true = unfold is_writing in refl
    table true false = unfold is_writing in refl
    table true true = unfold is_writing in refl

-- Each method switches the direction that it names and leaves the other one as it was; on a mask of
-- the events that the methods set.
pub change_events-reads_writes :
    (m : Change) (c : Channel)
    → IsInterest c.events
    → (is_reading (change_events m c) ≡ reads_after m (is_reading c))
      × (is_writing (change_events m c) ≡ writes_after m (is_writing c))
unfolding change_events change_mask-IsInterest
change_events-reads_writes m c i =
    let after = change_mask-IsInterest m c.events i in
    (
      is_reading-mask (record c { events = change_mask m c.events }) after
          ∙ ap (reads_after m) (sym (is_reading-mask c i)),
      is_writing-mask (record c { events = change_mask m c.events }) after
          ∙ ap (writes_after m) (sym (is_writing-mask c i)),
    )

-- `isNoneEvent()` on a mask of the events that the methods set.
pub is_none_event-eq :
    (c : Channel) → IsInterest c.events → is_none_event c ≡ not (is_reading c || is_writing c)
is_none_event-eq c i = ap of_events i.is_mask ∙ table i.reads i.writes ∙ sym (ap of_both i.is_mask)
  where
    of_events : ℕ → Bool
    of_events e = is_none_event (record c { events = e })

    of_both : ℕ → Bool
    of_both e = not (is_reading (record c { events = e }) || is_writing (record c { events = e }))

    table : (r w : Bool) → of_events (mask r w) ≡ of_both (mask r w)
    table false false = unfold is_reading is_writing is_none_event in refl
    table false true = unfold is_reading is_writing is_none_event in refl
    table true false = unfold is_reading is_writing is_none_event in refl
    table true true = unfold is_reading is_writing is_none_event in refl
