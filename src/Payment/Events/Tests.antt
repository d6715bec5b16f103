-- ===== src/Payment/Events/Tests.antt =====
-- Event types and events at concrete inputs.
use microservice_payment_ser.Base.{◌≡◌}
use microservice_payment_ser.Errors.{ok}
use microservice_payment_ser.Payment.Events.Registry.{event_value}
use microservice_payment_ser.Payment.Events.RoundTrip
use microservice_payment_ser.Payment.Events.Serial.{to_dict, event_from_dict, type_of_event}
use microservice_payment_ser.Repository.Tests.{creation}
use microservice_payment_ser.Samples.{plain}

event_from_dict-to_dict_example :
    event_from_dict plain 3 20 (event_value (type_of_event creation)) (to_dict plain creation)
    ≡ ok creation
event_from_dict-to_dict_example = RoundTrip.event_from_dict-to_dict plain 3 20 creation
