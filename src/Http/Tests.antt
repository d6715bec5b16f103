-- ===== src/Http/Tests.antt =====
-- The views at concrete inputs.
use microservice_payment_ser.Base.{◌+◌, ◌<◌, ◌≡◌, refl, Option, none, some, [], ◌∷◌, arith, ap}
use microservice_payment_ser.Base.Text.{Text, codes, strip, is_blank}
use microservice_payment_ser.Base.Json.{Json, null, num, str}
use microservice_payment_ser.Base.Decimal.{pos}
use microservice_payment_ser.Errors.{
  Uuid, Result, ok, err, invalid_operation, value_error, payment_not_found,
}
use microservice_payment_ser.Payment.Types.{succeeded, method_of}
use microservice_payment_ser.Payment.Aggregate
use microservice_payment_ser.Payment.Aggregate.{PaymentAggregate}
use microservice_payment_ser.Payment.Tests.{env_at, ten_euros, pending_payment}
use microservice_payment_ser.EventStore.{
  Database, append, append_loop, append_one, create_event, project_in_debug,
}
use microservice_payment_ser.Outbox
use microservice_payment_ser.Repository
use microservice_payment_ser.Idempotency.Key.{IdempotencyKey, StoredResponse}
use microservice_payment_ser.Idempotency.Store.{Keys, find, claim_or_replay}
use microservice_payment_ser.Idempotency.Service.{begin_request_processing}
use microservice_payment_ser.Commands
use microservice_payment_ser.Commands.{CreateRequest}
use microservice_payment_ser.Executor.{System, CreationCall, claim_of}
use microservice_payment_ser.Executor.Tests.{constant, silent, query, deposit_call, bare}
use microservice_payment_ser.Repository.{save_target}
use microservice_payment_ser.Repository.Reload.{Represents}
use microservice_payment_ser.Repository.Tests.{stored, stored-Represents, stored-IsFresh}
use microservice_payment_ser.Samples.{plain, at_load, ids_from, empty_database}
use microservice_payment_ser.Executor.{PaymentView}
use microservice_payment_ser.Queries.Payments.Fetch.{fetch_payment}
use microservice_payment_ser.Http.Requests.{Request, Response, Printing, refuse}
use microservice_payment_ser.Http.Creation.{create_deposit, create_withdrawal}
use microservice_payment_ser.Http.Posting.{posted, posted_raw}
use microservice_payment_ser.Http.Once
use microservice_payment_ser.Http.Once.{call_of}
use microservice_payment_ser.Http.Transition.Outcomes
use microservice_payment_ser.Http.Transition.Outcomes.{
  succeed_endpoint, refund_endpoint, cancel_endpoint, change_request, view_at,
}

abbrev printed : Json → Text
printed (str s) = s
printed (num n) = n ∷ []
printed _ = []

abbrev printing : Printing
printing = record { str_of = printed; json_time = λ t. t ∷ []; str_of-str = λ s. refl }

abbrev asked : Request
asked = change_request plain (codes "2") 70 none 99

abbrev succeeding : Result Response × Database
succeeding = view_at plain (ids_from 1000) silent at_load (env_at 8) succeed_endpoint asked stored

change_commits_example :
    ((r : Response) × (succeeding.0 ≡ ok r) × (r.status ≡ 200))
    × ((d : PaymentAggregate) × (d.payment_id ≡ 70)
        × (d.status ≡ succeeded)
        × (d.version ≡ 1 + 1)
        × Represents plain succeeding.1 d)
change_commits_example =
    Outcomes.change_commits plain (ids_from 1000) silent at_load (env_at 8) succeed_endpoint
      (codes "2") none 99 pending_payment succeeded stored refl refl stored-Represents refl
      (λ e. stored-IsFresh (save_target pending_payment e) refl)

abbrev refunding : Result Response × Database
refunding = view_at plain (ids_from 1000) silent at_load (env_at 8) refund_endpoint asked stored

change_refused_example :
    ((r : Response) × (refunding.0 ≡ ok r) × (r.status ≡ 400)) × (refunding.1 ≡ stored)
change_refused_example =
    Outcomes.change_refused plain (ids_from 1000) silent at_load (env_at 8) refund_endpoint
      (codes "2") none 99 pending_payment stored refl stored-Represents refl

abbrev nobody : Request
nobody = record asked { user_id = none }

abbrev cancelling : Result Response × Database
cancelling = view_at plain (ids_from 1000) silent at_load (env_at 8) cancel_endpoint nobody stored

abbrev deposit_request : CreateRequest
deposit_request = record {
  wallet_id = 1;
  user_id = 2;
  amount = ten_euros;
  currency = codes "eur";
  payment_method = codes "paypal";
  reference_id = none;
  description = none;
  payment_id = none;
}

abbrev creating : Result Uuid × Database
creating = Commands.create_deposit plain (ids_from 100) (env_at 5) deposit_request empty_database

created : creating.0 ≡ ok 70
unfolding Commands.create_deposit is_blank method_of Aggregate.create_deposit
    Commands.save_aggregate Repository.save Repository.save_popped append append_loop append_one
    create_event Outbox.save project_in_debug
created = refl

abbrev start : System
start = record { keys = []; db = empty_database }

abbrev later_call : CreationCall
later_call = record deposit_call { began = 9; ended = 10 }

abbrev small_deposit : CreateRequest
small_deposit = record deposit_request { amount = record { coefficient = pos 1; scale = 2 } }

-- Both timestamps of every row are 5; the amounts print as in the codec.
abbrev fetched : Uuid → Database → Result PaymentView
fetched = fetch_payment plain.decimal_str (λ u. (5, 5))

abbrev begun : Result (Option StoredResponse) × Keys
begun =
    begin_request_processing 5
      (claim_of constant (
        call_of plain printing (ids_from 100) constant silent fetched deposit_call (codes "k1")
          deposit_request))
      []

given : begun.0 ≡ ok none
unfolding begin_request_processing claim_or_replay is_blank strip
given = refl

live :
    (row : IdempotencyKey)
    → find (codes "k1") 2 begun.1 ≡ some row
    → (6 < row.expires_at) × (9 < row.expires_at)
unfolding begin_request_processing claim_or_replay is_blank strip
live row found = ground arith

abbrev first_post : Result Response × System
first_post =
    create_deposit plain printing (ids_from 100) constant silent fetched deposit_call (env_at 5)
      (posted plain (codes "k1") deposit_request) start

deposit_posted_twice_example :
    ((r : Response) × (first_post.0 ≡ ok r) × (r.status ≡ 201))
    × (first_post.1.db ≡ creating.1)
    × (create_deposit plain printing
          (ids_from 100)
          constant
          silent
          fetched
          later_call
          (env_at 9)
          (posted plain (codes "k1") small_deposit)
          first_post.1
        ≡ (ok (refuse 400 (silent (payment_not_found 70))), first_post.1))
deposit_posted_twice_example =
    Once.deposit_posted_twice plain printing (ids_from 100) constant silent plain.decimal_str
      (λ u. (5, 5)) deposit_call later_call (env_at 5) (env_at 9) (codes "k1") deposit_request
      small_deposit start creating.1 70 refl bare refl refl refl refl refl refl given
      (ap (λ (r : Result Uuid). (r, creating.1)) created) refl live

malformed_uncaught_example :
    (create_deposit plain printing
        (ids_from 100)
        constant
        silent
        query
        deposit_call
        (env_at 5)
        (posted_raw plain (codes "k1") deposit_request (str (codes "much")) null)
        start
      ≡ (err invalid_operation, start))
    × (create_deposit plain printing
          (ids_from 100)
          constant
          silent
          query
          deposit_call
          (env_at 5)
          (posted_raw plain
            (codes "k1")
            deposit_request
            (str (plain.decimal_str ten_euros))
            (str (codes "new")))
          start
        ≡ (err (value_error "badly formed hexadecimal UUID string"), start))
    × (create_withdrawal plain printing
          (ids_from 100)
          constant
          silent
          query
          deposit_call
          (env_at 5)
          (posted_raw plain (codes "k1") deposit_request (str (codes "much")) null)
          start
        ≡ (err invalid_operation, start))
    × (create_withdrawal plain printing
          (ids_from 100)
          constant
          silent
          query
          deposit_call
          (env_at 5)
          (posted_raw plain
            (codes "k1")
            deposit_request
            (str (plain.decimal_str ten_euros))
            (str (codes "new")))
          start
        ≡ (err (value_error "badly formed hexadecimal UUID string"), start))
malformed_uncaught_example =
    Once.malformed_uncaught plain printing (ids_from 100) constant silent query deposit_call
      (env_at 5) (codes "k1") (codes "much") (codes "new") deposit_request start refl refl refl refl
      refl refl
