-- ===== src/Attacher/Events.antt =====
-- The events that the attacher reacts to: the end of a resolution, the events of the DTLS connection
-- and of the keep-alive timer, and application data. src/core/nc_attacher.c.
use nabto_embedded_sdk.Base.{
  ℕ, Bool, not, ◌&&◌, Option, none, some, List, [], ◌∷◌, ◌++◌, CString, length, ltb, leb, ◌==◌,
  if◌then◌else◌, ◌>>=◌,
}
use nabto_embedded_sdk.Nn.{Nn}
use nabto_embedded_sdk.KeepAlive.{
  Action, do_nothing, send_ka, ka_timeout, reset, wait, should_send, create_request, handle_request,
  at_keep_alive, ct_keep_alive_request,
}
use nabto_embedded_sdk.Attacher.{
  State, dns, dtls_attach_request, retry_wait, access_denied_wait, redirect, attached, closed,
  setup, running, module_closed, Ip, Endpoint, device_detached, dtls_close, dtls_reset,
  remove_connection, dtls_send_data, keep_alive_timer, device_event, coap_packet, max_endpoints,
  max_redirect_follow, Attacher, Run, enter, after, resolve_close, reattach, async_close,
  nc_attacher_stop,
}
use nabto_embedded_sdk.Attacher.Requests.{
  StartResponse, start_response, sct_response, end_response, send_attach_start_request, add_token,
}

-- One round of the loop over the addresses: the test looks at `index`, the write goes to the end. A
-- write behind the array is a fault.
unfoldable pub add_endpoint : ℕ → ℕ → List Endpoint → Ip → Option (List Endpoint)
add_endpoint index port eps ip =
    if ltb index max_endpoints
    then (if ltb (length eps) max_endpoints
        then some (eps ++ ((record { ip = ip; port = port }) ∷ []))
        else none)
    else some eps

unfoldable pub fill_endpoints : ℕ → ℕ → List Endpoint → List Ip → Option (List Endpoint)
unfolding add_endpoint
fill_endpoints index port eps [] = some eps
fill_endpoints index port eps (ip ∷ ips) =
    add_endpoint index port eps ip >>= λ eps'. fill_endpoints index port eps' ips

pub data DtlsEvent : Type 0 where
  handshake_complete event_closed event_access_denied : DtlsEvent

module _ (nn : Nn) where
  -- dns_resolved_callback, after the resolver has stored the addresses
  unfoldable pub dns_resolved : Bool → List Ip → Attacher nn → Option (Run nn)
  dns_resolved ok ips a = elim a.module_state [
    | module_closed ↦ some (enter nn closed b)
    | setup ↦ resolved
    | running ↦ resolved
  ]
    where
      b : Attacher nn
      b = record a { resolved_ips = ips }

      resolved : Option (Run nn)
      resolved =
          if not ok
          then some (enter nn retry_wait b)
          else (fill_endpoints 0 b.current_port [] b.resolved_ips >>= λ eps. some (
              enter nn dtls_attach_request
                (record b { endpoints = eps; endpoints_index = 0; active_ep = none })))

  -- The part behind the two calls that give the connection up.
  unfoldable pub closed_in : State → Attacher nn → Run nn
  closed_in dtls_attach_request a = enter nn retry_wait a
  closed_in attached a =
      after nn (if a.has_listener then device_event device_detached ∷ [] else [])
        (enter nn retry_wait a)
  closed_in redirect a =
      if leb max_redirect_follow a.redirect_attempts then enter nn retry_wait a else enter nn dns a
  closed_in access_denied_wait a = (a, [])
  closed_in dns a = enter nn retry_wait a
  closed_in retry_wait a = enter nn retry_wait a
  closed_in closed a = enter nn retry_wait a

  unfoldable pub handle_dtls_closed : Attacher nn → Run nn
  unfolding closed_in
  handle_dtls_closed a = after nn (remove_connection ∷ dtls_reset ∷ []) (closed_in a.state a)

  -- `ctx->request` is null: nothing ever sets it.
  unfoldable pub handle_dtls_access_denied : Attacher nn → Run nn
  handle_dtls_access_denied a =
      after nn (remove_connection ∷ dtls_reset ∷ []) (enter nn access_denied_wait a)

  unfoldable pub handle_dtls_connected : Bool → Bool → Attacher nn → Run nn
  handle_dtls_connected has_alpn built a =
      if not has_alpn then (a, dtls_close ∷ []) else send_attach_start_request nn built a

  -- The keep-alive state is reset before a connection that ended is handled.
  unfoldable pub reset_then : (Attacher nn → Run nn) → Attacher nn → Run nn
  reset_then handle a =
      let (ka, call) = reset a.keep_alive in
      after nn (keep_alive_timer call ∷ []) (handle (record a { keep_alive = ka }))

  -- `has_alpn`: whether the protocol was negotiated; `built`: whether the start request can be built
  unfoldable pub dtls_event_handler : DtlsEvent → Bool → Bool → Attacher nn → Run nn
  unfolding handle_dtls_connected reset_then handle_dtls_closed handle_dtls_access_denied
  dtls_event_handler event has_alpn built a = elim a.module_state [
    | module_closed ↦ when_closed event
    | setup ↦ when_open event
    | running ↦ when_open event
  ]
    where
      when_closed : DtlsEvent → Run nn
      when_closed handshake_complete = (a, dtls_close ∷ [])
      when_closed event_closed = enter nn closed a
      when_closed event_access_denied = enter nn closed a

      when_open : DtlsEvent → Run nn
      when_open handshake_complete = handle_dtls_connected has_alpn built a
      when_open event_closed = reset_then handle_dtls_closed a
      when_open event_access_denied = reset_then handle_dtls_access_denied a

  -- keep_alive_event with keep_alive_send_req
  unfoldable pub keep_alive_event : ℕ → ℕ → Attacher nn → Run nn
  keep_alive_event recv_count sent_count a =
      let (ka, action) = should_send a.keep_alive recv_count sent_count in
      by_action action (record a { keep_alive = ka })
    where
      by_action : Action → Attacher nn → Run nn
      by_action do_nothing b = (b, keep_alive_timer (wait b.keep_alive).1 ∷ [])
      by_action send_ka b =
          let ka = create_request b.keep_alive in
          (record b { keep_alive = ka }, dtls_send_data ∷ keep_alive_timer (wait ka).1 ∷ [])
      by_action ka_timeout b = (b, dtls_close ∷ [])

  -- handle_keep_alive_data with keep_alive_send_response
  unfoldable pub handle_keep_alive_data : List ℕ → Attacher nn → Run nn
  handle_keep_alive_data [] a = (a, [])
  handle_keep_alive_data (t ∷ []) a = (a, [])
  handle_keep_alive_data (t ∷ content_type ∷ rest) a =
      let buffer = t ∷ content_type ∷ rest in
      let (ka, answered) = handle_request a.keep_alive buffer (length buffer) in
      if content_type == ct_keep_alive_request
      then (record a { keep_alive = ka }, if answered then dtls_send_data ∷ [] else [])
      else (a, [])

  abbrev at_coap_start : ℕ
  at_coap_start = 64

  abbrev at_coap_end : ℕ
  at_coap_end = 127

  unfoldable pub dtls_data_handler : List ℕ → Attacher nn → Run nn
  unfolding handle_keep_alive_data
  dtls_data_handler [] a = (a, [])
  dtls_data_handler (application_type ∷ rest) a =
      let buffer = application_type ∷ rest in
      if leb at_coap_start application_type && leb application_type at_coap_end
      then (a, coap_packet buffer ∷ [])
      else if application_type == at_keep_alive
      then handle_keep_alive_data buffer a
      else (a, [])

  -- What can happen to an attacher that was started.
  pub data Input : Type 0 where
    close_input stop_input close_event reattach_event : Input
    resolved_event : Bool → List Ip → Input
    dtls_event : DtlsEvent → Bool → Bool → Input
    start_event : StartResponse → Bool → Bool → Input
    sct_event : Option ℕ → Bool → Input
    end_event : Option ℕ → Bool → Input
    timer_event : ℕ → ℕ → Input
    data_event : List ℕ → Input
    token_event : CString → Bool → Input

  unfoldable pub step : Input → Attacher nn → Option (Run nn)
  unfolding dns_resolved dtls_event_handler keep_alive_event dtls_data_handler
  step close_input a = some (async_close nn a)
  step stop_input a = some (nc_attacher_stop nn a)
  step close_event a = some (resolve_close nn a)
  step reattach_event a = reattach nn a
  step (resolved_event ok ips) a = dns_resolved ok ips a
  step (dtls_event event has_alpn built) a = some (dtls_event_handler event has_alpn built a)
  step (start_event r built end_built) a = start_response nn r built end_built a
  step (sct_event code built) a = sct_response nn code built a
  step (end_event code built) a = end_response nn code built a
  step (timer_event recv_count sent_count) a = some (keep_alive_event recv_count sent_count a)
  step (data_event buffer) a = some (dtls_data_handler buffer a)
  step (token_event token built) a = some (add_token nn token built a).1

  -- Inputs, one after the other.
  unfoldable pub steps : List Input → Attacher nn → Option (Run nn)
  steps [] a = some (a, [])
  steps (i ∷ is) a = step i a >>= λ (b, calls). steps is b >>= λ (c, more). some (c, calls ++ more)
