-- ===== src/Attacher/Attaching.antt =====
-- When the attacher becomes attached.
use nabto_embedded_sdk.Base.{◌≡◌, ◌≢◌, refl, arith, Bool, true, false, none, some, ◌⊎◌, >>=-eq-some}
use nabto_embedded_sdk.Nn.{Nn}
use nabto_embedded_sdk.Attacher.{
  redirect, attached, module_closed, ErrorCode, ec_ok, operation_started, operation_in_progress,
  no_operation, out_of_memory, invalid_state, aborted, udp_socket_error, no_valid_endpoints,
  ec_closed, ec_eof, in_use, unknown, attach_sct, Attacher, Run, entered, handle_state_change,
  enter, after, do_close, resolve_close, reattach, async_close, nc_attacher_stop,
}
use nabto_embedded_sdk.Attacher.Requests.{
  StartStatus, status_attached, status_redirect, status_error, coap_attach_failed, start_request,
  send_attach_sct_request, send_attach_end_request, end_request, StartResponse, start_response,
  sct_response, end_response, send_attach_start_request, sct_upload, send_sct_request,
  started_or_failed, after_upload, attach_sct_callback, running_sct_callback, attach_end_handler,
  start_callback_of, handle_start_response, is_status_ok, add_token,
}
use nabto_embedded_sdk.Attacher.Events.{
  closed_in, handle_dtls_closed, handle_dtls_access_denied, handle_dtls_connected, reset_then,
  Input, close_input, stop_input, close_event, reattach_event, resolved_event, dtls_event,
  start_event, sct_event, end_event, timer_event, data_event, token_event, step, dns_resolved,
  dtls_event_handler, keep_alive_event, dtls_data_handler, handle_keep_alive_data,
}
use nabto_embedded_sdk.Attacher.Closing.{response_keeps}

module _ (nn : Nn) where
  -- The input is the answer to the request that ends an attach, with a code for success, and the
  -- module is not closed.
  pub Accepted : Input nn → Attacher nn → Type 0
  Accepted (end_event (some code) built) a =
      (is_status_ok code ≡ true) × (a.end_callback ≡ true) × (a.module_state ≢ module_closed)
  Accepted _ a = ⊥

  -- The requests of an attach keep the state.
  started_keeps : (p : ErrorCode × Run nn) → (started_or_failed nn p).0.state ≡ p.1.0.state
  unfolding started_or_failed coap_attach_failed after
  started_keeps (ec_ok, run) = refl
  started_keeps (operation_started, run) = refl
  started_keeps (operation_in_progress, run) = refl
  started_keeps (no_operation, run) = refl
  started_keeps (out_of_memory, run) = refl
  started_keeps (invalid_state, run) = refl
  started_keeps (unknown, run) = refl
  started_keeps (ec_closed, run) = refl
  started_keeps (ec_eof, run) = refl
  started_keeps (in_use, run) = refl
  started_keeps (aborted, run) = refl
  started_keeps (udp_socket_error, run) = refl
  started_keeps (no_valid_endpoints, run) = refl

  end_request_keeps :
      (built : Bool) (a : Attacher nn) → (send_attach_end_request nn built a).0.state ≡ a.state
  unfolding send_attach_end_request end_request
  end_request_keeps built a = ground (arith, started_keeps (end_request nn built a))

  after_upload_keeps :
      (end_built : Bool) (p : ErrorCode × Run nn)
      → (after_upload nn end_built p).0.state ≡ p.1.0.state
  unfolding after_upload after
  after_upload_keeps end_built (ec_ok, run) = started_keeps (ec_ok, run)
  after_upload_keeps end_built (operation_started, run) = started_keeps (operation_started, run)
  after_upload_keeps end_built (operation_in_progress, run) =
      started_keeps (operation_in_progress, run)
  after_upload_keeps end_built (no_operation, run) = end_request_keeps end_built run.0
  after_upload_keeps end_built (out_of_memory, run) = started_keeps (out_of_memory, run)
  after_upload_keeps end_built (invalid_state, run) = started_keeps (invalid_state, run)
  after_upload_keeps end_built (unknown, run) = started_keeps (unknown, run)
  after_upload_keeps end_built (ec_closed, run) = started_keeps (ec_closed, run)
  after_upload_keeps end_built (ec_eof, run) = started_keeps (ec_eof, run)
  after_upload_keeps end_built (in_use, run) = started_keeps (in_use, run)
  after_upload_keeps end_built (aborted, run) = started_keeps (aborted, run)
  after_upload_keeps end_built (udp_socket_error, run) = started_keeps (udp_socket_error, run)
  after_upload_keeps end_built (no_valid_endpoints, run) = started_keeps (no_valid_endpoints, run)

  sct_request_keeps :
      (built end_built : Bool) (a : Attacher nn)
      → (send_attach_sct_request nn built end_built a).0.state ≡ a.state
  unfolding send_attach_sct_request sct_upload
  sct_request_keeps built end_built a =
      ground (arith, after_upload_keeps end_built (sct_upload nn attach_sct built a))

  start_callback_keeps :
      (status : StartStatus) (built end_built : Bool) (a : Attacher nn)
      → ((start_callback_of nn status built end_built a).0.state ≡ a.state)
        ⊎ ((start_callback_of nn status built end_built a).0.state ≡ redirect)
  unfolding start_callback_of coap_attach_failed
  start_callback_keeps status_attached built end_built a =
      ground (arith, sct_request_keeps built end_built a)
  start_callback_keeps status_redirect built end_built a = ground arith
  start_callback_keeps status_error built end_built a = ground arith

  start_not_attached :
      (r : StartResponse) (built end_built : Bool) (a : Attacher nn) (run : Run nn)
      → start_response nn r built end_built a ≡ some run
      → a.state ≢ attached
      → run.0.state ≢ attached
  unfolding start_response
  start_not_attached r built end_built a run h n e =
      let ((status, b), f, k) = >>=-eq-some (handle_start_response nn r a) _ h in
      let (same_module, same_state, same_sct) = response_keeps nn r a b status f in
      ground
        (arith, start_callback_keeps status built end_built (record b { start_callback = false }))

  -- The attacher becomes attached only by the answer to the request that ends an attach: its code is
  -- one of success, the request was under way, and the module is not closed.
  pub step_attached :
      (i : Input nn) (a : Attacher nn) (run : Run nn)
      → step nn i a ≡ some run
      → a.state ≢ attached
      → run.0.state ≡ attached
      → Accepted i a
  unfolding Accepted step dns_resolved dtls_event_handler closed_in handle_dtls_closed
      handle_dtls_access_denied handle_dtls_connected reset_then keep_alive_event dtls_data_handler
      start_response sct_response end_response start_callback_of attach_sct_callback
      running_sct_callback send_sct_request sct_upload attach_end_handler coap_attach_failed
      handle_keep_alive_data do_close enter handle_state_change entered after async_close
      nc_attacher_stop resolve_close reattach send_attach_start_request start_request
      send_attach_sct_request after_upload started_or_failed send_attach_end_request end_request
      add_token
  step_attached close_input a run h n e = ground arith
  step_attached stop_input a run h n e = ground arith
  step_attached close_event a run h n e = ground arith
  step_attached reattach_event a run h n e = ground arith
  step_attached (resolved_event ok ips) a run h n e = ground arith
  step_attached (dtls_event event has_alpn built) a run h n e = ground arith
  step_attached (start_event r built end_built) a run h n e =
      absurd (start_not_attached r built end_built a run h n e)
  step_attached (sct_event none built) a run h n e = ground arith
  step_attached (sct_event (some code) built) a run h n e = ground arith
  step_attached (end_event none built) a run h n e = ground arith
  step_attached (end_event (some code) built) a run h n e =
      (ground arith, ground arith, ground arith)
  step_attached (timer_event recv_count sent_count) a run h n e = ground arith
  step_attached (data_event buffer) a run h n e = ground arith
  step_attached (token_event token built) a run h n e = ground arith
