-- ===== src/Channel/Dispatch.antt =====
-- `handleEvent` keeps what its callbacks keep. (src/network/channel.cpp)
use order_engine.Prelude.{Bool, true, false, Option, none, some}
use order_engine.Channel.{
  Channel, Callbacks, call_if, handle_event, hung_up, failed, readable, writable,
}

module _ {S : Type 0} (P : S → Type 0) where
  abbrev Keeps : Option (S → S) → Type 0
  Keeps none = Unit
  Keeps (some f) = (s : S) → P s → P (f s)

  call_if-Keeps : (b : Bool) (o : Option (S → S)) → Keeps o → (s : S) → P s → P (call_if b o s)
  call_if-Keeps false o k s h = h
  call_if-Keeps true none k s h = h
  call_if-Keeps true (some f) k s h = k s h

  pub handle_event-Keeps :
      (cb : Callbacks S) (c : Channel)
      → Keeps cb.on_close
      → Keeps cb.on_error
      → Keeps cb.on_read
      → Keeps cb.on_write
      → (s : S) → P s
      → P (handle_event cb c s)
  unfolding handle_event
  handle_event-Keeps cb c close error read write s h =
      let s1 = call_if (hung_up c.revents) cb.on_close s in
      let s2 = call_if (failed c.revents) cb.on_error s1 in
      let s3 = call_if (readable c.revents) cb.on_read s2 in
      call_if-Keeps (writable c.revents) cb.on_write write s3 (
        call_if-Keeps (readable c.revents) cb.on_read read s2 (
          call_if-Keeps (failed c.revents) cb.on_error error s1
            (call_if-Keeps (hung_up c.revents) cb.on_close close s h)))
