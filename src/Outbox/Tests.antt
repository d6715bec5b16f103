-- ===== src/Outbox/Tests.antt =====
-- The outbox at concrete inputs.
use microservice_payment_ser.Base.{none, [], ◌∷◌}
use microservice_payment_ser.Base.Text.{codes}
use microservice_payment_ser.Base.Json.{end}
use microservice_payment_ser.Errors.{Uuid}
use microservice_payment_ser.Outbox.{Outbox, OutboxEvent, new_row}

abbrev entry : Uuid → OutboxEvent
entry id = record {
  id = id;
  event_type = codes "payment.created";
  event_payload = end;
  aggregate_id = 70;
  aggregate_type = codes "Payment";
  trace_id = none;
  metadata = end;
  created_at = 5;
  retry_count = 0;
}

abbrev one_row : Outbox
one_row = new_row (entry 101) 1 ∷ []
