-- ===== src/Attacher/Tests.antt =====
-- A device that attaches, is redirected, uploads tokens and closes.
use nabto_embedded_sdk.Base.{
  ◌+◌, ◌%◌, ◌^◌, ltb, leb, drop, ◌≡◌, refl, arith, true, false, none, some, List, [], ◌∷◌, ◌++◌,
  any, if◌then◌else◌,
}
use nabto_embedded_sdk.Attacher.{
  text_of, dns, dtls_attach_request, retry_wait, redirect, attached, closed, running, module_closed,
  Ip, Endpoint, device_attached, ec_ok, operation_in_progress, running_sct, Call, post_close_event,
  keep_alive_timer, state_listener, device_event, send_sct, udp_send, max_endpoints, SctContext,
  Attacher, entered, handle_state_change, enter, after, resolve_close,
}
use nabto_embedded_sdk.Attacher.Requests.{
  add_token, is_synchronized, sct_response, end_response, sct_upload, send_sct_request,
  attach_end_handler, is_status_ok,
}
use nabto_embedded_sdk.Attacher.Events.{
  fill_endpoints, event_closed, close_input, dtls_event, start_event, end_event, step, steps,
  dtls_event_handler,
}
use nabto_embedded_sdk.Base.{codes, replicate}
use nabto_embedded_sdk.Nn.Lists.{list_nn}
use nabto_embedded_sdk.KeepAlive.{wait, post_timed_event, KeepAlive}
use nabto_embedded_sdk.Attacher.{ipv4}
use nabto_embedded_sdk.Attacher.Sending.{dtls_packet_sender, handle_dtls_packet}
use nabto_embedded_sdk.Attacher.Closing.{
  StaysClosed, steps-StaysClosed, ends_redirect, close_completes, is_post_close, is_closed_callback,
}
use nabto_embedded_sdk.Attacher.Attaching.{Accepted, step_attached}
use nabto_embedded_sdk.Attacher.Redirects.{IsName, redirect_to, redirect_cycle}
use nabto_embedded_sdk.Attacher.Endpoints.{
  at_port, fill_endpoints_lem, sent_many, to_all, packet_to_all, first_answer_wins,
}
use nabto_embedded_sdk.Attacher.Tokens.{token_during_upload}

abbrev keep_alive_sample : KeepAlive
keep_alive_sample = record {
  ka_interval = 30000;
  ka_retry_interval = 2000;
  ka_max_retries = 15;
  last_recv_count = 0;
  last_sent_count = 0;
  lost_keep_alives = 0;
  n = 15;
  is_sending = false;
  send_buffer = replicate 18 0;
}

abbrev first_ip : Ip
first_ip = ipv4 (10 ∷ 0 ∷ 0 ∷ 1 ∷ [])

abbrev second_ip : Ip
second_ip = ipv4 (10 ∷ 0 ∷ 0 ∷ 2 ∷ [])

abbrev sct_sample : SctContext list_nn
sct_sample = record {
  scts = [];
  version = 0;
  synchronized_version = 0;
  uploading_version = 0;
  callback = none;
}

-- The attach request is under way; the buffer holds a name of four characters.
abbrev attaching_device : Attacher list_nn
attaching_device = record {
  state = dtls_attach_request;
  module_state = running;
  hostname = codes "home";
  default_port = 443;
  current_port = 443;
  dns_buffer = codes "home" ++ replicate 252 0;
  resolved_ips = first_ip ∷ second_ip ∷ [];
  endpoints = at_port 443 (first_ip ∷ second_ip ∷ []);
  endpoints_index = 0;
  packet = [];
  active_ep = none;
  redirect_attempts = 0;
  start_callback = true;
  end_callback = false;
  closed_cb = false;
  has_state_listener = true;
  has_listener = true;
  stun_host = replicate 256 0;
  stun_port = 0;
  keep_alive = keep_alive_sample;
  sct = sct_sample;
  retry_wait_time = 10000;
  access_denied_wait_time = 3600000;
}

abbrev ending_device : Attacher list_nn
ending_device = record attaching_device { start_callback = false; end_callback = true }

abbrev closed_device : Attacher list_nn
closed_device = record attaching_device { module_state = module_closed }

abbrev redirected_device : Attacher list_nn
redirected_device = record attaching_device { state = redirect }

abbrev uploading_device : Attacher list_nn
uploading_device = record attaching_device {
  state = attached;
  start_callback = false;
  sct = record {
    scts = codes "a" ∷ [];
    version = 1;
    synchronized_version = 0;
    uploading_version = 1;
    callback = some running_sct;
  };
}

closed_run :
    steps list_nn (dtls_event event_closed true true ∷ []) closed_device
    ≡ some (record closed_device { state = closed }, post_close_event ∷ state_listener closed ∷ [])
unfolding steps step dtls_event_handler enter handle_state_change entered
closed_run = refl

steps-StaysClosed_example :
    StaysClosed list_nn closed_device
      (record closed_device { state = closed }, post_close_event ∷ state_listener closed ∷ [])
steps-StaysClosed_example =
    steps-StaysClosed list_nn (dtls_event event_closed true true ∷ []) closed_device
      (record closed_device { state = closed }, post_close_event ∷ state_listener closed ∷ []) refl
      closed_run

close_completes_example :
    (b : Attacher list_nn) × (calls : List Call) × (steps list_nn
        (close_input ∷ dtls_event event_closed true true ∷ [])
        redirected_device
      ≡ some (b, calls))
    × (b.state ≡ closed)
    × (any (is_post_close list_nn) calls ≡ true)
    × (any (is_closed_callback list_nn) (resolve_close list_nn b).1 ≡ true)
close_completes_example =
    close_completes list_nn redirected_device redirect (dtls_event event_closed true true ∷ []) refl
      refl (ends_redirect true true)

-- The end of the attach, with nothing to upload.
abbrev attached_device : Attacher list_nn
attached_device = record ending_device { end_callback = false; state = attached }

abbrev attached_calls : List Call
attached_calls =
    keep_alive_timer (post_timed_event 2000)
    ∷ state_listener attached
    ∷ device_event device_attached
    ∷ []

end_run :
    step list_nn (end_event (some 201) true) ending_device ≡ some (attached_device, attached_calls)
unfolding step end_response attach_end_handler enter handle_state_change entered after is_status_ok
    send_sct_request sct_upload wait
end_run = refl

step_attached_example : Accepted list_nn (end_event (some 201) true) ending_device
step_attached_example =
    step_attached list_nn (end_event (some 201) true) ending_device
      (attached_device, attached_calls) end_run (λ e. cc) refl

IsName-sample : IsName list_nn (codes "bs")
unfolding IsName
IsName-sample = ((λ e. absurd (omega (arith, e))), ((λ e. absurd (omega (arith, e))), tt))

-- The host "bs" over the buffer of "home" gives the name "bsme".
redirect_cycle_example :
    (b : Attacher list_nn) × (calls : List Call) × (steps list_nn
        (start_event (redirect_to list_nn (codes "bs") 444) true true
          ∷ dtls_event event_closed true true
          ∷ [])
        attaching_device
      ≡ some (b, calls))
    × (text_of b.dns_buffer ≡ codes "bs" ++ text_of (drop 2 attaching_device.dns_buffer))
    × (b.current_port ≡ 444 % 2 ^ 16)
    × (b.redirect_attempts ≡ 0 + 1)
    × (b.state ≡ (if ltb 0 4 then dns else retry_wait))
redirect_cycle_example =
    redirect_cycle list_nn attaching_device (codes "bs") 444 true true true true refl refl
      (omega arith) IsName-sample (omega arith) (omega arith)

stale_name : codes "bs" ++ text_of (drop 2 attaching_device.dns_buffer) ≡ codes "bsme"
unfolding text_of
stale_name = refl

fill_endpoints_lem_run : fill_endpoints 0 443 [] (first_ip ∷ second_ip ∷ []) ≡ (
    if leb (0 + 2) max_endpoints
    then some ([] ++ at_port 443 (first_ip ∷ second_ip ∷ []))
    else none)
fill_endpoints_lem_run = fill_endpoints_lem 443 [] (first_ip ∷ second_ip ∷ []) (omega arith)

packet_to_all_example :
    (let (b, calls) = dtls_packet_sender list_nn (1 ∷ []) attaching_device in
      calls ++ (sent_many list_nn 2 b).1)
    ≡ to_all list_nn (1 ∷ []) attaching_device.endpoints
packet_to_all_example = packet_to_all list_nn attaching_device (1 ∷ []) refl

abbrev first_endpoint : Endpoint
first_endpoint = record { ip = first_ip; port = 443 }

abbrev second_endpoint : Endpoint
second_endpoint = record { ip = second_ip; port = 443 }

first_answer_wins_run :
    let b =
      (handle_dtls_packet list_nn first_endpoint
        (handle_dtls_packet list_nn second_endpoint attaching_device).0).0 in
    dtls_packet_sender list_nn (1 ∷ []) b ≡ (b, udp_send second_endpoint (1 ∷ []) ∷ [])
first_answer_wins_run =
    first_answer_wins list_nn attaching_device second_endpoint first_endpoint (1 ∷ []) refl

token_during_upload_example :
    let (ec, (b, calls)) = add_token list_nn (codes "b") true uploading_device in
    (c d : Attacher list_nn) × (ec ≡ ec_ok)
    × (calls ≡ [])
    × (sct_response list_nn (some 201) true b
        ≡ some (
          c,
          send_sct
                (list_nn.set_elements (list_nn.set_insert uploading_device.sct.scts (codes "b")).1)
              ∷ [],
        ))
    × (is_synchronized list_nn c ≡ operation_in_progress)
    × (list_nn.set_contains c.sct.scts (codes "b") ≡ true)
    × (sct_response list_nn (some 201) true c ≡ some (d, []))
    × (is_synchronized list_nn d ≡ ec_ok)
token_during_upload_example =
    token_during_upload list_nn uploading_device (codes "b") true true refl refl (omega arith)
      (omega arith) refl
