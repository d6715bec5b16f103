-- ===== src/Messaging/Rabbit.antt =====
-- The consumer of src/messaging/rabbitMQ/consumer.py: the callback that pika calls for a message.
-- Its cache and its duplicate test are those of the Kafka consumer, under keys of its own.
use microservice_payment_ser.Base.{
  ℕ, ◌≡◌, refl, false, if◌then◌else◌, Option, none, some, List, [], ◌∷◌, ◌++◌, Bool-cases, inl, inr,
  ap, sym, ◌∙◌, map, append-nil, append_assoc, ◌<◌, ◌+◌, lt→ltb,
}
use microservice_payment_ser.Base.Text.{Text, text_eq_refl}
use microservice_payment_ser.Errors.{Time, Error, Result, ok, err, value_error}
use microservice_payment_ser.Action.{Action, raise}
use microservice_payment_ser.Messaging.Wire.{Wire}
use microservice_payment_ser.Messaging.Consumer.{
  Cache, Registry, remember, is_duplicate, is_anonymous, cached, remembered, message_id,
  event_type_header, unknown, process_event,
}

-- What the callback tells the channel about a delivery tag; a nack sends the message to the
-- dead-letter queue.
pub data Answer : Type 0 where
  basic_ack basic_nack : ℕ → Answer

pub record Delivered (Bytes : Type 0) : Type 0 where
  pub delivery_tag : ℕ
  pub message_id : Option Text
  pub headers : Option (List (Text × Text))
  pub body : Bytes

pub record Channel (W : Type 0) : Type 0 where
  pub cache : Cache
  pub answers : List Answer
  pub world : W

-- `properties.headers.get("event_type", "unknown") if properties.headers else "unknown"`
abbrev event_type_of : Option (List (Text × Text)) → Text
event_type_of none = unknown
event_type_of (some headers) = event_type_header unknown headers

abbrev pub tag_of : Answer → ℕ
tag_of (basic_ack tag) = tag
tag_of (basic_nack tag) = tag

map-snoc :
    {A B : Type 0} (f : A → B) (xs : List A) (x : A) → map f (xs ++ x ∷ []) ≡ map f xs ++ f x ∷ []
map-snoc f [] x = refl
map-snoc f (y ∷ xs) x = ap (λ ys. f y ∷ ys) (map-snoc f xs x)

module _ {W : Type 0} (w : Wire) (registry : Registry W) (cull : Cache → Cache) where
  -- The body of the `try`, up to the acknowledgement.
  unfoldable pub work : Delivered w.Bytes → Action W (Unit {0})
  unfolding process_event event_type_header
  work d = elim (w.loads d.body) [
    | none ↦ raise (value_error "JSONDecodeError")
    | some event_data ↦ process_event w registry (event_type_of d.headers) event_data
  ]

  abbrev reply : ℕ → Result (Unit {0}) → Answer
  reply tag (ok tt) = basic_ack tag
  reply tag (err e) = basic_nack tag

  -- `callback`
  unfoldable pub callback : Time → Delivered w.Bytes → Channel W → Channel W
  unfolding is_duplicate work
  callback now d s =
      let (duplicate, cache) = is_duplicate cull (message_id d.message_id) now s.cache in
      let (res, world) = work d s.world in
      if duplicate
      then record s { answers = s.answers ++ basic_ack d.delivery_tag ∷ [] }
      else record {
        cache = cache;
        answers = s.answers ++ reply d.delivery_tag res ∷ [];
        world = world;
      }

  -- The callbacks that `start_consuming` makes, one after the other.
  unfoldable pub consume_all : List (Time × Delivered w.Bytes) → Channel W → Channel W
  unfolding callback
  consume_all [] s = s
  consume_all (d ∷ ds) s = consume_all ds (callback d.0 d.1 s)

  reply-tag : (tag : ℕ) (res : Result (Unit {0})) → tag_of (reply tag res) ≡ tag
  reply-tag tag (ok tt) = refl
  reply-tag tag (err e) = refl

  callback-tag :
      (now : Time) (d : Delivered w.Bytes) (s : Channel W)
      → map tag_of (callback now d s).answers ≡ map tag_of s.answers ++ d.delivery_tag ∷ []
  unfolding callback
  callback-tag now d s =
      let (duplicate, cache) = is_duplicate cull (message_id d.message_id) now s.cache in
      let (res, world) = work d s.world in
      elim (Bool-cases duplicate) [
        | inl e ↦ rw e (map-snoc tag_of s.answers (basic_ack d.delivery_tag))
        | inr e ↦ rw e (
            map-snoc tag_of s.answers (reply d.delivery_tag res)
            ∙ ap (λ tag. map tag_of s.answers ++ tag ∷ []) (reply-tag d.delivery_tag res))
      ]

  -- Whatever the messages are and however the work on them ends, each is acknowledged or rejected
  -- exactly once, in the order in which they come.
  pub consume_all-tags :
      (ds : List (Time × Delivered w.Bytes)) (s : Channel W)
      → map tag_of (consume_all ds s).answers
        ≡ map tag_of s.answers ++ map (λ (d : Time × Delivered w.Bytes). d.1.delivery_tag) ds
  unfolding consume_all
  consume_all-tags [] s = sym (append-nil (map tag_of s.answers))
  consume_all-tags (d ∷ ds) s =
      let tags = map (λ (x : Time × Delivered w.Bytes). x.1.delivery_tag) ds in
      consume_all-tags ds (callback d.0 d.1 s)
      ∙ ap (λ (x : List ℕ). x ++ tags) (callback-tag d.0 d.1 s)
      ∙ append_assoc (map tag_of s.answers) (d.1.delivery_tag ∷ []) tags

  -- A message that is neither a duplicate nor worked on without an exception is rejected, and is
  -- taken for a duplicate when it comes again within 7 days.
  pub rejected_then_acked :
      (now later : Time) (d : Delivered w.Bytes) (s : Channel W) (e : Error) (world : W)
      → is_anonymous (message_id d.message_id) ≡ false
      → cached (message_id d.message_id) now s.cache ≡ false
      → work d s.world ≡ (err e, world)
      → later < now + remembered
      → let first = callback now d s in
        (first.answers ≡ s.answers ++ basic_nack d.delivery_tag ∷ [])
        × (callback later d first
            ≡ record first { answers = first.answers ++ basic_ack d.delivery_tag ∷ [] })
  unfolding callback is_duplicate cached remember
  rejected_then_acked now later d s e world keyed fresh raises soon =
      rw
        (
          keyed,
          fresh,
          raises,
          text_eq_refl (message_id d.message_id),
          lt→ltb later (now + remembered) soon,
        )
        (refl, refl)
