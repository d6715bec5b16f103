-- ===== src/Messaging/Consumer/Distinct.antt =====
-- The consumer runs the handlers once per key (src/messaging/kafka/consumer.py).
use microservice_payment_ser.Base.{
  ℕ, ◌+◌, ◌≤◌, ◌<◌, ◌≡◌, refl, true, false, Bool, List, [], ◌∷◌, any, length, filter_by, arith,
  Bool-cases, inl, inr, ◌∙◌, ap, sym, subst,
}
use microservice_payment_ser.Base.Text.{Text, text_eq, text_eq_iff}
use microservice_payment_ser.Errors.{Time, Result, ok, err}
use microservice_payment_ser.Messaging.Wire.{Wire}
use microservice_payment_ser.Messaging.Consumer.{
  Cache, CacheEntry, cached, remembered, is_anonymous, is_duplicate, Delivery, Consuming,
  message_id, Registry, remember, max_entries, other_key, process_message, finish, receive, consume,
}

-- Every delivery is in the time for which the first of them is remembered.
unfoldable pub IsWithin : {Bytes : Type 0} → Time → List (Delivery Bytes) → Type 0
IsWithin start [] = Unit {0}
IsWithin start (d ∷ ds) = (start ≤ d.now) × (d.now < start + remembered) × IsWithin start ds

-- The cache knows the keys that were seen.
abbrev Remembers : Time → List Text → Cache → Type 0
Remembers start seen cache =
    (id : Text) (now : Time)
    → start ≤ now
    → now < start + remembered
    → cached id now cache ≡ any (text_eq id) seen

-- Dropping the entries of a key leaves the others known.
cached-other_key :
    (key id : Text) (now : Time) (cache : Cache)
    → text_eq id key ≡ false
    → cached id now (filter_by (other_key key) cache) ≡ cached id now cache
unfolding cached
cached-other_key key id now [] other = refl
cached-other_key key id now (e ∷ cache) other = elim (Bool-cases (text_eq key e.key)) [
  | inr kept ↦ rw kept (ground (arith, cached-other_key key id now cache other))
  | inl dropped ↦
      let apart : text_eq id e.key ≡ false =
        ap (text_eq id) (sym ((text_eq_iff key e.key).0 dropped)) ∙ other in
      rw (dropped, apart) (cached-other_key key id now cache other)
]

length-filter_by_le :
    (p : CacheEntry → Bool) (cache : Cache) → length (filter_by p cache) ≤ length cache
length-filter_by_le p [] = omega arith
length-filter_by_le p (e ∷ cache) = ground (arith, length-filter_by_le p cache)

-- A cache that is not full drops nothing else.
remember-roomy :
    (cull : Cache → Cache) (e : CacheEntry) (cache : Cache)
    → length cache < max_entries
    → (remember cull e cache ≡ e ∷ filter_by (other_key e.key) cache)
      × (length (remember cull e cache) ≤ length cache + 1)
unfolding remember
remember-roomy cull e cache room = ground (arith, length-filter_by_le (other_key e.key) cache)

Remembers-entry :
    (cull : Cache → Cache) (start : Time) (seen : List Text) (cache : Cache) (key : Text)
    (at : Time)
    → start ≤ at
    → length cache < max_entries
    → Remembers start seen cache
    → Remembers start
        (key ∷ seen)
        (remember cull (record { key = key; expiry = at + remembered }) cache)
unfolding cached
Remembers-entry cull start seen cache key at after room known id now lo hi =
    let entry : CacheEntry = record { key = key; expiry = at + remembered } in
    rw (remember-roomy cull entry cache room).0 (elim (Bool-cases (text_eq id key)) [
      | inl e ↦ ground (arith, e)
      | inr e ↦ rw e (cached-other_key key id now cache e ∙ known id now lo hi)
    ])

module _ {W : Type 0} (w : Wire) (registry : Registry W) where
  -- The handlers run on the first message of each key and on every message without a key.
  unfoldable pub process_distinct : List Text → List (Delivery w.Bytes) → W → W
  process_distinct seen [] world = world
  process_distinct seen (d ∷ ds) world = elim (is_anonymous (message_id d.message.key)) [
    | true ↦ process_distinct seen ds (process_message w registry d.message world).1
    | false ↦ elim (any (text_eq (message_id d.message.key)) seen) [
      | true ↦ process_distinct seen ds world
      | false ↦
          process_distinct (message_id d.message.key ∷ seen) ds
            (process_message w registry d.message world).1
    ]
  ]

  finish_keeps :
      (offset : ℕ) (s : Consuming W) (x : Result (Unit {0}) × W)
      → ((finish w registry offset s x).world ≡ x.1)
        × ((finish w registry offset s x).cache ≡ s.cache)
  finish_keeps offset s (ok tt, world) = (refl, refl)
  finish_keeps offset s (err e, world) = (refl, refl)

  module _ (cull : Cache → Cache) where
    -- How a message is received, by its key.
    pub receive-anonymous :
        (d : Delivery w.Bytes) (s : Consuming W)
        → is_anonymous (message_id d.message.key) ≡ true
        → ((receive w registry cull d s).world ≡ (process_message w registry d.message s.world).1)
          × ((receive w registry cull d s).cache ≡ s.cache)
    unfolding receive is_duplicate
    receive-anonymous d s h =
        rw h (finish_keeps d.offset s (process_message w registry d.message s.world))

    pub receive-duplicate :
        (d : Delivery w.Bytes) (s : Consuming W)
        → is_anonymous (message_id d.message.key) ≡ false
        → cached (message_id d.message.key) d.now s.cache ≡ true
        → receive w registry cull d s ≡ record s { position = d.offset + 1 }
    unfolding receive is_duplicate
    receive-duplicate d s h seen = rw (h, seen) refl

    pub receive-new :
        (d : Delivery w.Bytes) (s : Consuming W)
        → is_anonymous (message_id d.message.key) ≡ false
        → cached (message_id d.message.key) d.now s.cache ≡ false
        → let entry : CacheEntry = record {
          key = message_id d.message.key;
          expiry = d.now + remembered;
        } in
          receive w registry cull d s
          ≡ finish w registry d.offset
              (record s { cache = remember cull entry s.cache })
              (process_message w registry d.message s.world)
    unfolding receive is_duplicate
    receive-new d s h fresh = rw (h, fresh) refl

    distinct_from :
        (start : Time) (seen : List Text) (ds : List (Delivery w.Bytes)) (s : Consuming W)
        → Remembers start seen s.cache
        → IsWithin start ds
        → length s.cache + length ds ≤ max_entries
        → (consume w registry cull ds s).world ≡ process_distinct seen ds s.world
    unfolding consume process_distinct IsWithin
    distinct_from start seen [] s known h room = refl
    distinct_from start seen (d ∷ ds) s known (lo, hi, rest) room =
        let id = message_id d.message.key in
        let s1 = receive w registry cull d s in
        elim (Bool-cases (is_anonymous id)) [
          | inl e ↦
              let (world, cache) = receive-anonymous d s e in
              distinct_from start seen ds s1 (subst (Remembers start seen) (sym cache) known) rest
                (omega (arith, room, ap (λ (x : Cache). length x) cache))
              ∙ ap (process_distinct seen ds) world
              ∙ rw (e, process_distinct) refl
          | inr e ↦ elim (Bool-cases (any (text_eq id) seen)) [
            | inl old ↦
                let same = receive-duplicate d s e (known id d.now lo hi ∙ old) in
                distinct_from start seen ds s1
                  (subst (λ (x : Consuming W). Remembers start seen x.cache) (sym same) known) rest
                  (omega (arith, room, ap (λ (x : Consuming W). length x.cache) same))
                ∙ ap (λ (x : Consuming W). process_distinct seen ds x.world) same
                ∙ rw (e, old, process_distinct) refl
            | inr new ↦
                let same = receive-new d s e (known id d.now lo hi ∙ new) in
                let entry : CacheEntry = record { key = id; expiry = d.now + remembered } in
                let (world, cache) =
                  finish_keeps d.offset (record s { cache = remember cull entry s.cache })
                    (process_message w registry d.message s.world) in
                distinct_from start (id ∷ seen) ds s1
                  (subst (Remembers start (id ∷ seen))
                    (sym (ap (λ (x : Consuming W). x.cache) same ∙ cache))
                    (Remembers-entry cull start seen s.cache id d.now lo (omega (arith, room))
                      known))
                  rest
                  (omega (
                    arith,
                    room,
                    ap (λ (x : Cache). length x) (ap (λ (x : Consuming W). x.cache) same ∙ cache),
                    (remember-roomy cull entry s.cache (omega (arith, room))).1,
                  ))
                ∙ ap (process_distinct (id ∷ seen) ds)
                    (ap (λ (x : Consuming W). x.world) same ∙ world)
                ∙ rw (e, new, process_distinct) refl
          ]
        ]

    -- From an empty cache, at most 300 deliveries that all come within 7 days of some time leave the
    -- world as running the handlers on the first message of each key and on all messages without a
    -- key does, whatever Django drops when the cache is full.
    pub consume-process_distinct :
        (start : Time) (ds : List (Delivery w.Bytes)) (s : Consuming W)
        → s.cache ≡ []
        → IsWithin start ds
        → length ds ≤ max_entries
        → (consume w registry cull ds s).world ≡ process_distinct [] ds s.world
    unfolding cached
    consume-process_distinct start ds s empty h few =
        distinct_from start [] ds s (λ id now lo hi. rw empty refl) h
          (omega (arith, few, ap (λ (x : Cache). length x) empty))
