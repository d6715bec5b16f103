-- ===== src/Handler/Tests.antt =====
-- The creation commands at concrete inputs.
use microservice_payment_ser.Base.{◌≡◌, ap, []}
use microservice_payment_ser.Errors.{Uuid, Result, err, dict_key_error}
use microservice_payment_ser.Payment.Tests.{env_at}
use microservice_payment_ser.Repository.Tests.{stored}
use microservice_payment_ser.Commands.Tests.{refund_request, refunding, created_refund}
use microservice_payment_ser.Executor.{PaymentView, System}
use microservice_payment_ser.Executor.Tests.{constant, silent, query, deposit_call, given_work}
use microservice_payment_ser.Handler.{create_refund}
use microservice_payment_ser.Handler.Views
use microservice_payment_ser.Samples.{plain, at_load, ids_from}

abbrev requesting : Result PaymentView × System
requesting =
    create_refund plain (ids_from 1000) constant silent query deposit_call at_load (env_at 5)
      refund_request 70 (record { keys = []; db = stored })

refund_request_raises_example :
    (requesting.0 ≡ err (dict_key_error "payment_method")) × (requesting.1.db ≡ refunding.1)
refund_request_raises_example =
    Views.refund_request_raises plain (ids_from 1000) constant silent query deposit_call at_load
      (env_at 5) refund_request 70 (record { keys = []; db = stored }) 71 refunding.1 given_work
      (ap (λ (r : Result Uuid). (r, refunding.1)) created_refund.0)
