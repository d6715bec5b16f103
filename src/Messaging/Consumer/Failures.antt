-- ===== src/Messaging/Consumer/Failures.antt =====
-- A message whose handler raises (src/messaging/kafka/consumer.py).
use microservice_payment_ser.Base.{◌+◌, ◌<◌, ◌≡◌, refl, false, arith, ◌∙◌, ap}
use microservice_payment_ser.Base.Text.{text_eq_refl}
use microservice_payment_ser.Errors.{Time, Error, err}
use microservice_payment_ser.Messaging.Wire.{Wire}
use microservice_payment_ser.Messaging.Consumer.{
  Cache, CacheEntry, cached, remember, remembered, is_anonymous, Delivery, Consuming, message_id,
  Registry, process_message, finish, receive,
}
use microservice_payment_ser.Messaging.Consumer.Distinct.{receive-duplicate, receive-new}

-- A message with a key that is not in the cache and whose handler raises is not committed; but when
-- it is delivered again within 7 days, no handler runs and its offset is committed.
pub failed_then_skipped :
    {W : Type 0} (w : Wire) (registry : Registry W) (cull : Cache → Cache) (d : Delivery w.Bytes)
    (s : Consuming W) (e : Error) (world : W) (later : Time)
    → is_anonymous (message_id d.message.key) ≡ false
    → cached (message_id d.message.key) d.now s.cache ≡ false
    → process_message w registry d.message s.world ≡ (err e, world)
    → later < d.now + remembered
    → let failed = receive w registry cull d s in
      (failed.position ≡ s.position)
      × (failed.world ≡ world)
      × (receive w registry cull (record d { now = later }) failed
          ≡ record failed { position = d.offset + 1 })
unfolding cached remember
failed_then_skipped {W} w registry cull d s e world later keyed fresh raises soon =
    let id = message_id d.message.key in
    let entry : CacheEntry = record { key = id; expiry = d.now + remembered } in
    let failed : Consuming W = record {
      cache = remember cull entry s.cache;
      position = s.position;
      world = world;
    } in
    let first : receive w registry cull d s ≡ failed =
      receive-new w registry cull d s keyed fresh
      ∙ ap (finish w registry d.offset (record s { cache = remember cull entry s.cache })) raises in
    rw first (
      refl,
      refl,
      receive-duplicate w registry cull (record d { now = later }) failed keyed
          (ground (arith, text_eq_refl id, soon)),
    )
