-- ===== src/Stun/Tests.antt =====
-- An analysis for one caller, with a client whose next event is its state.
use nabto_embedded_sdk.Base.{
  ◌+◌, ◌<◌, ◌≡◌, ◌≢◌, ◌⊎◌, refl, arith, true, false, none, some, [], ◌∷◌, ◌++◌, codes, replicate,
  length,
}
use nabto_embedded_sdk.Attacher.{Ip, ipv4, Endpoint, ec_ok}
use nabto_embedded_sdk.Connections.Dispatch.{is_ok}
use nabto_embedded_sdk.Stun.{
  StunEvent, et_no_event, et_completed, et_failed, StunClient, stun_none, stun_running,
  max_callbacks, Stun, is_aborted, async_analyze, stun_event,
}
use nabto_embedded_sdk.Stun.Callbacks.{
  waiting, AllOrNone, input_sent, stun_step, stun_step-AllOrNone, async_analyze_lem,
}
use nabto_embedded_sdk.Stun.Idle.{
  IsIdle, Stuns, stuns_here, stuns_analyze, stuns_step, Stuns-IsIdle,
}
use nabto_embedded_sdk.Stun.Endpoints.{
  found_eps, Cbor, Sizes, StunCoap, respond, encode_eps, endpoints_completed, handle_endpoints,
}
use nabto_embedded_sdk.Stun.Responses.{IsEndpoint, AllEndpoints, endpoints_completed_lem}
use nabto_embedded_sdk.Stun.Failure.{request_after_failure}

abbrev seen_ep : Endpoint
seen_ep = record { ip = ipv4 (192 ∷ 0 ∷ 2 ∷ 1 ∷ []); port = 4567 }

abbrev event_client : StunClient
event_client = record {
  Client = StunEvent;
  stun_init = λ eps. et_no_event;
  stun_analyze = λ simple client. et_no_event;
  next_event = λ client. (client, client);
  data_endpoint = λ client. some seen_ep;
  send_data = λ client. (0 ∷ 1 ∷ [], client);
  packet_in = λ buffer client. et_completed;
  wait_event = λ client. et_failed;
  timeout_ms = λ client. 500;
  result = λ client. seen_ep;
}

abbrev idle_context : Stun event_client
idle_context = record {
  pri_udp = true;
  sec_udp = true;
  client = et_failed;
  cbs = replicate max_callbacks none;
  state = stun_none;
  ec = ec_ok;
  res = none;
  hostname = some (codes "stun");
  pri_port = 3478;
  simple = false;
}

abbrev waiting_context : Stun event_client
waiting_context = record idle_context {
  cbs = some 7 ∷ none ∷ some 8 ∷ replicate 7 none;
  state = stun_running;
}

stun_step-AllOrNone_example :
    AllOrNone waiting_context.cbs
      (stun_step event_client input_sent waiting_context).0.cbs
      (stun_step event_client input_sent waiting_context).1
stun_step-AllOrNone_example = stun_step-AllOrNone event_client input_sent waiting_context

async_analyze_lem_run :
    (((async_analyze event_client true 9 waiting_context).0 ≡ ec_ok)
      × (is_aborted waiting_context.state ≡ false)
      × (waiting_context.hostname ≢ none)
      × (length (waiting waiting_context.cbs) < length waiting_context.cbs)
      × (length (waiting (async_analyze event_client true 9 waiting_context).1.0.cbs)
          ≡ 1 + length (waiting waiting_context.cbs)))
    ⊎ (((async_analyze event_client true 9 waiting_context).0 ≢ ec_ok)
        × ((is_aborted waiting_context.state ≡ true)
            ⊎ (waiting_context.hostname ≡ none)
            ⊎ (length (waiting waiting_context.cbs) ≡ length waiting_context.cbs))
        × ((async_analyze event_client true 9 waiting_context).1 ≡ (waiting_context, [])))
async_analyze_lem_run = async_analyze_lem event_client true 9 waiting_context

nobody_waits : waiting idle_context.cbs ≡ []
unfolding waiting
nobody_waits = refl

failed_analysis :
    Stuns event_client idle_context
      (stun_step event_client input_sent (async_analyze event_client true 7 idle_context).1.0).0
failed_analysis = stuns_step input_sent (stuns_analyze true 7 stuns_here)

Stuns-IsIdle_example :
    IsIdle event_client
      (stun_step event_client input_sent (async_analyze event_client true 7 idle_context).1.0).0
Stuns-IsIdle_example =
    Stuns-IsIdle event_client idle_context
      (stun_step event_client input_sent (async_analyze event_client true 7 idle_context).1.0).0
      nobody_waits failed_analysis

abbrev cbor_sample : Cbor
cbor_sample = record {
  open_array = 159 ∷ [];
  open_map = 191 ∷ [];
  close_container = 255 ∷ [];
  text = λ cs. (96 + length cs) ∷ cs;
  byte_string = λ bytes. (64 + length bytes) ∷ bytes;
  uint = λ n. 25 ∷ 0 ∷ n ∷ [];
}

Sizes-sample : Sizes cbor_sample
Sizes-sample = record {
  array = refl;
  map_size = refl;
  close_size = refl;
  text_size = λ cs h. omega arith;
  bytes_size = λ bytes h. omega arith;
  uint_size = λ n h. ground arith;
}

abbrev local_ip : Ip
local_ip = ipv4 (10 ∷ 0 ∷ 0 ∷ 7 ∷ [])

abbrev request_waits : StunCoap
request_waits = record { deinitialized = false; stun_request = some 3 }

endpoints_completed_lem_example :
    endpoints_completed cbor_sample true (local_ip ∷ []) 5592 ec_ok (some seen_ep) request_waits
    ≡ some (
      record { deinitialized = false; stun_request = none },
      respond 3 205 (
            some (
              (159 ∷ [])
              ++ encode_eps cbor_sample ((record { ip = local_ip; port = 5592 }) ∷ seen_ep ∷ [])))
          ∷ [],
    )
unfolding found_eps is_ok AllEndpoints IsEndpoint
endpoints_completed_lem_example =
    endpoints_completed_lem cbor_sample Sizes-sample true (local_ip ∷ []) 5592 ec_ok (some seen_ep)
      request_waits 3 ((record { ip = local_ip; port = 5592 }) ∷ seen_ep ∷ []) refl refl refl
      ((ground arith, ground arith), ((ground arith, ground arith), tt))

request_after_failure_example :
    (d : Stun event_client) × (handle_endpoints event_client cbor_sample true
        (local_ip ∷ [])
        5592
        3
        ((stun_event event_client waiting_context).0, record request_waits { stun_request = none })
      ≡ some (d, request_waits, [], []))
    × (handle_endpoints event_client cbor_sample true (local_ip ∷ []) 5592 4 (d, request_waits)
        ≡ some (d, request_waits, [], respond 4 412 none ∷ []))
request_after_failure_example =
    request_after_failure event_client cbor_sample true (local_ip ∷ []) 5592 3 4 waiting_context
      (record request_waits { stun_request = none }) (codes "stun") refl refl refl (ground arith)
      refl
