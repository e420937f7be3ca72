-- ===== src/Platform/Windows/Masks.antt =====
-- The mask of a channel under Windows, and what the channel wants (src/network/channel.cpp).
use order_engine.Prelude.{
  ℕ, ◌+◌, ◌≡◌, refl, Bool, true, false, not, ◌||◌, ◌==◌, if◌then◌else◌, nat_eq,
}
use order_engine.Channel.{Channel, Change, enable_reading, is_none_event}
use order_engine.Platform.{Wants, no_wants, is_idle, after_change}
use order_engine.Platform.Windows.{change_mask}
use order_engine.Poller.Select.{is_reading, is_writing}

-- The mask of a channel that wants this.
abbrev pub mask : Wants → ℕ
mask w = (if w.reads then 1 else 0) + (if w.writes then 2 else 0)

pub change_mask-mask :
    (m : Change) (r w : Bool)
    → change_mask m (mask (record { reads = r; writes = w }))
      ≡ mask (after_change m (record { reads = r; writes = w }))
unfolding change_mask
change_mask-mask enable_reading false false = refl
change_mask-mask m false false = refl
change_mask-mask enable_reading false true = refl
change_mask-mask m false true = refl
change_mask-mask enable_reading true false = refl
change_mask-mask m true false = refl
change_mask-mask enable_reading true true = refl
change_mask-mask m true true = refl

pub reading-mask :
    (c : Channel) (w : Wants)
    → c.events ≡ mask w
    → (is_reading c ≡ w.reads) × (is_writing c ≡ w.writes)
unfolding is_reading is_writing
reading-mask c w e = rw e (table w.reads w.writes)
  where
    table :
        (r v : Bool)
        → (is_reading (record c { events = mask (record { reads = r; writes = v }) }) ≡ r)
          × (is_writing (record c { events = mask (record { reads = r; writes = v }) }) ≡ v)
    table false false = (refl, refl)
    table false true = (refl, refl)
    table true false = (refl, refl)
    table true true = (refl, refl)

pub none-idle : (c : Channel) (w : Wants) → c.events ≡ mask w → is_none_event c ≡ is_idle w
unfolding is_none_event
none-idle c w e = rw e (table w.reads w.writes)
  where
    table : (r v : Bool) → (mask (record { reads = r; writes = v }) == 0) ≡ not (r || v)
    table false false = refl
    table false true = refl
    table true false = refl
    table true true = refl

pub idle-no_wants : (w : Wants) → is_idle w ≡ true → w ≡ no_wants
idle-no_wants w e = table w.reads w.writes e
  where
    table : (r v : Bool) → not (r || v) ≡ true → record { reads = r; writes = v } ≡ no_wants
    table false false e = refl
    table false true e = absurd (cc)
    table true v e = absurd (cc)
