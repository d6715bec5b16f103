-- ===== src/Messaging/Consumer.antt =====
-- `KafkaDomainConsumer` of src/messaging/kafka/consumer.py, on one partition. The handlers act on a
-- world of their own and may raise. A commit goes through; an error that Kafka reports ends the loop
-- and is not modelled.
use microservice_payment_ser.Base.{
  ℕ, ◌+◌, ◌*◌, Bool, false, not, ◌||◌, ltb, leb, length, filter_by, Option, none, some, List, [],
  ◌∷◌, if◌then◌else◌,
}
use microservice_payment_ser.Base.Text.{Text, codes, text_eq, is_empty}
use microservice_payment_ser.Base.Json.{Json, object, member, str, end}
use microservice_payment_ser.Errors.{Time, Result, ok, err}
use microservice_payment_ser.Action.{Action, pure}
use microservice_payment_ser.Messaging.Wire.{Wire, Message}
pub mod Distinct
pub mod Failures
pub mod EndToEnd

-- An entry of Django's cache, whose value is "1", with the time at which it expires. The settings
-- name no cache, so it is the one in the memory of the process.
pub record CacheEntry : Type 0 where
  pub key : Text
  pub expiry : Time

abbrev pub Cache : Type 0
Cache = List CacheEntry

-- `bool(cache.get(key))`; the entry written last is the first
unfoldable pub cached : Text → Time → Cache → Bool
cached k now [] = false
cached k now (e ∷ cache) = if text_eq k e.key then ltb now e.expiry else cached k now cache

-- `MAX_ENTRIES`, by default
abbrev pub max_entries : ℕ
max_entries = 300

abbrev pub other_key : Text → CacheEntry → Bool
other_key k e = not (text_eq k e.key)

-- `cache.set` after a `cache.get` that has found nothing, and has dropped the entry if it had
-- expired; a full cache is culled before it takes an entry. Which entries `cull` keeps is Django's.
unfoldable pub remember : (Cache → Cache) → CacheEntry → Cache → Cache
remember cull e cache =
    let rest = filter_by (other_key e.key) cache in
    e ∷ (if leb max_entries (length rest) then cull rest else rest)

-- 7 days, in microseconds
abbrev pub remembered : Time
remembered = 7 * 24 * 3600 * 1000000

abbrev pub unknown : Text
unknown = codes "unknown"

-- `not message_id or message_id == "unknown"`
abbrev pub is_anonymous : Text → Bool
is_anonymous id = is_empty id || text_eq id unknown

-- `is_duplicate`. The prefix that every key has in the cache is left out.
unfoldable pub is_duplicate : (Cache → Cache) → Text → Time → Cache → Bool × Cache
unfolding cached remember
is_duplicate cull id now cache =
    if is_anonymous id
    then (false, cache)
    else if cached id now cache
    then (Bool.true, cache)
    else (false, remember cull (record { key = id; expiry = now + remembered }) cache)

-- A message that is polled, with its offset, at a time.
pub record Delivery (Bytes : Type 0) : Type 0 where
  pub offset : ℕ
  pub now : Time
  pub message : Message Bytes

-- The cache, the committed offset of the group, and what the handlers act on.
pub record Consuming (W : Type 0) : Type 0 where
  pub cache : Cache
  pub position : ℕ
  pub world : W

-- `headers.get("event_type", default)`: a later header replaces an earlier one
unfoldable pub event_type_header : Text → List (Text × Text) → Text
event_type_header found [] = found
event_type_header found ((k, v) ∷ headers) =
    event_type_header (if text_eq k (codes "event_type") then v else found) headers

-- `msg.key().decode("utf-8") if msg.key() else "unknown"`
abbrev pub message_id : Option Text → Text
message_id none = unknown
message_id (some key) = if is_empty key then unknown else key

abbrev pub Registry : Type 0 → Type 0
Registry W = Text → Option (Json → Action W (Unit {0}))

module _ {W : Type 0} (w : Wire) (registry : Registry W) where
  -- The payload; what is no JSON is wrapped up.
  unfoldable pub read_payload : w.Bytes → Json
  read_payload value = elim (w.loads value) [
    | none ↦ object (member "raw_value" (str (w.decode value)) end)
    | some payload ↦ payload
  ]

  -- `process_event`
  unfoldable pub process_event : Text → Json → Action W (Unit {0})
  process_event event_type payload = elim (registry event_type) [
    | none ↦ pure tt
    | some handler ↦ handler payload
  ]

  -- The work on a message that is no duplicate.
  unfoldable pub process_message : Message w.Bytes → Action W (Unit {0})
  unfolding process_event read_payload event_type_header
  process_message m = process_event (event_type_header unknown m.headers) (read_payload m.value)

  -- The offset is committed unless the work has raised.
  abbrev finish : ℕ → Consuming W → Result (Unit {0}) × W → Consuming W
  finish offset s (ok tt, world) = record s { position = offset + 1; world = world }
  finish offset s (err e, world) = record s { world = world }

  module _ (cull : Cache → Cache) where
    -- One turn of the loop of `start`.
    unfoldable pub receive : Delivery w.Bytes → Consuming W → Consuming W
    unfolding is_duplicate process_message
    receive d s =
        let (duplicate, cache) = is_duplicate cull (message_id d.message.key) d.now s.cache in
        if duplicate
        then record s { position = d.offset + 1 }
        else finish d.offset (record s { cache = cache }) (process_message d.message s.world)

    unfoldable pub consume : List (Delivery w.Bytes) → Consuming W → Consuming W
    unfolding receive
    consume [] s = s
    consume (d ∷ ds) s = consume ds (receive d s)
