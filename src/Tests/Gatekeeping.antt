-- ===== src/Tests/Gatekeeping.antt =====
-- The theorems on whole requests, for a key that may read payments.
use comos_pay_community_serv.Base.{
  false, none, some, [], ◌∷◌, ◌≡◌, ◌⊎◌, refl, arith, codes, raised, ap, forbidden, world, trim,
  if◌then◌else◌, ◌==◌,
}
use comos_pay_community_serv.Prisma.Client.{memory_client, memory_client-IsLawfulClient}
use comos_pay_community_serv.Prisma.Memory.{memory_table, get}
use comos_pay_community_serv.Gateway.Context.{
  malformed, attach, first_header, parse_role, parse_permissions, parse_environment, Headers,
  single,
}
use comos_pay_community_serv.Gateway.Guards.{
  enter, apisix_guard, has_valid_secret, permissions_guard, check_scopes, missing_scopes,
  join_texts,
}
use comos_pay_community_serv.Http.{Edge, Draws}
use comos_pay_community_serv.Http.Errors.{ErrorBody}
use comos_pay_community_serv.Http.AccessLog.{RequestInfo, is_skipped}
use comos_pay_community_serv.Http.Payments.{payment_intent_route, PaymentIntentCall}
use comos_pay_community_serv.Http.Calls.{Call, route_of, handle}
use comos_pay_community_serv.Http.ReadOnly.{MirrorsIn-rest}
use comos_pay_community_serv.Http.ReadOnly.Handlers.{writes, handle-IsMirror}
use comos_pay_community_serv.Platform.{World}
use comos_pay_community_serv.Http.Server.{serve, finish, failure}
use comos_pay_community_serv.Http.Server.Least.{Untouched, serve-Untouched}
use comos_pay_community_serv.Http.Server.Replies.{Replies, serve-Replies, serve_refused}
use comos_pay_community_serv.Http.Server.Logged.{IsLogged, finish-IsLogged}
use comos_pay_community_serv.Tests.{platform, order, world_with, supply}
use comos_pay_community_serv.Tests.Entry.{names, request, caller, enters_as_caller}
use comos_pay_community_serv.Tests.Deliveries.{codec, flaky}
use comos_pay_community_serv.Tests.Statistics.{terms}
use comos_pay_community_serv.Tests.Dashboard.{whole_numbers, day_number}
use comos_pay_community_serv.Gateway.Consumer.{GatewayConsumer}
use comos_pay_community_serv.Isolation.Spares.{Spares}
use comos_pay_community_serv.Isolation.Requests.{serve-Spares}
use comos_pay_community_serv.Http.Payments

abbrev pub edge : Edge
edge = record {
  codec = codec;
  floats = whole_numbers;
  sums = terms;
  iso_date = day_number;
  buffer = codes;
  parse_json = λ text. malformed;
  gateway_secret = "s";
  names = names;
  reason = λ status. "Forbidden";
}

abbrev pub draws : Draws
draws = record {
  supply = supply;
  random = "00ff";
  uuid = "u";
  transport = flaky;
  log_id = "l1";
  duration_ms = 3;
  code_at_end = λ e. 200;
}

abbrev pub info : RequestInfo
info = record { method = "GET"; url = "/v1/p?take=1"; ip = none; headers = request }

abbrev read_one : Call
read_one = Call.payment_intents (Payments.PaymentIntentCall.get_one "i1")

abbrev pub remove_one : Call
remove_one = Call.payment_intents (Payments.PaymentIntentCall.delete "i1")

attached : attach (λ text. malformed) names request ≡ some caller
unfolding attach first_header trim parse_role parse_permissions parse_environment
attached = refl

serve-Untouched_example :
    Untouched platform caller draws.log_id
      (world_with (order ∷ []))
      (serve platform edge draws info remove_one (world_with (order ∷ []))).0
serve-Untouched_example =
    serve-Untouched platform edge memory_client-IsLawfulClient draws info remove_one
      (world_with (order ∷ [])) caller attached (ground arith) (refl, (refl, (refl, (refl, tt))))

serve-Replies_example :
    Replies platform edge info 500
      (handle platform edge draws caller read_one (world_with (order ∷ [])))
      (serve platform edge draws info read_one (world_with (order ∷ []))).1
unfolding route_of
serve-Replies_example =
    serve-Replies platform edge draws info read_one (world_with (order ∷ [])) caller
      enters_as_caller

lacks_scope :
    enter codes "s" names (λ text. malformed) (route_of remove_one) request
    ≡ raised (forbidden "This API key is missing the required scope(s): payments:write")
unfolding enter apisix_guard has_valid_secret attach first_header trim permissions_guard
    check_scopes parse_role missing_scopes parse_permissions parse_environment route_of join_texts
lacks_scope = refl

serve_refused_example :
    (b : ErrorBody) × (serve platform edge draws info remove_one (world_with (order ∷ []))
      ≡ (world_with (order ∷ []), failure b))
    × ((b.status_code ≡ 401) ⊎ (b.status_code ≡ 403) ⊎ (b.status_code ≡ 503))
serve_refused_example =
    serve_refused platform edge draws info remove_one (world_with (order ∷ []))
      (forbidden "This API key is missing the required scope(s): payments:write") lacks_scope

kept_in_log : is_skipped info ≡ false
unfolding is_skipped
kept_in_log = refl

read_one_reads : writes read_one ≡ false
unfolding route_of
read_one_reads = refl

no_row :
    memory_client.request_log.get "l1"
      (world (handle platform edge draws caller read_one (world_with (order ∷ [])))).logs
    ≡ none
unfolding memory_table get
no_row =
    ap (λ (x : World memory_client). memory_client.request_log.get "l1" x.logs)
      (MirrorsIn-rest platform caller (world_with (order ∷ []))
        (world (handle platform edge draws caller read_one (world_with (order ∷ []))))
        (handle-IsMirror platform edge draws caller read_one read_one_reads
          (world_with (order ∷ []))))

finish-IsLogged_example :
    IsLogged platform draws info
      (some "shop")
      (world (handle platform edge draws caller read_one (world_with (order ∷ []))))
      (finish platform edge draws info
        (some "shop")
        (handle platform edge draws caller read_one (world_with (order ∷ [])))).0
finish-IsLogged_example =
    finish-IsLogged platform edge memory_client-IsLawfulClient draws info (some "shop")
      (handle platform edge draws caller read_one (world_with (order ∷ []))) kept_in_log no_row

-- The headers of a key that may write payments.
abbrev writing : Headers
writing name =
    if name == "x-gateway-secret"
    then some (single "s")
    else if name == "x-consumer-username"
    then some (single "shop")
    else if name == "x-consumer-permissions"
    then some (single "payments:write")
    else none

abbrev writer : GatewayConsumer
writer = record caller { permissions = "payments:write" ∷ [] }

abbrev removing : RequestInfo
removing = record { method = "DELETE"; url = "/v1/p/i1"; ip = none; headers = writing }

attached_writer : attach (λ text. malformed) names writing ≡ some writer
unfolding attach first_header trim parse_role parse_permissions parse_environment
attached_writer = refl

serve-Spares_example :
    Spares platform "shop"
      (world_with (order ∷ []))
      (serve platform edge draws removing remove_one (world_with (order ∷ []))).0
serve-Spares_example =
    serve-Spares platform edge memory_client-IsLawfulClient draws removing remove_one
      (world_with (order ∷ [])) writer attached_writer
