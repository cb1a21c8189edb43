-- ===== src/Attacher/Requests.antt =====
-- The CoAP requests of attaching: src/core/nc_attacher_attach_start.c, nc_attacher_sct.c and
-- nc_attacher_attach_end.c, and their callbacks in nc_attacher.c. Whether a request can be built is
-- an input, `built`; it answers out_of_memory if not, and the callers treat every error alike. What the
-- CBOR reader finds in a response is a record. A handler that calls a callback which is not set calls
-- through a null pointer, a fault.
use nabto_embedded_sdk.Base.{
  ℕ, ◌+◌, ◌-◌, ◌%◌, ◌^◌, Bool, true, false, not, ◌&&◌, ◌||◌, Option, none, some, [], ◌∷◌, ◌++◌,
  CString, drop, length, ltb, leb, ◌==◌, replicate, if◌then◌else◌, ◌>>=◌,
}
use nabto_embedded_sdk.Nn.{Nn}
use nabto_embedded_sdk.KeepAlive.{set_settings, wait, u32}
use nabto_embedded_sdk.Attacher.{
  redirect, attached, setup, running, module_closed, ErrorCode, ec_ok, operation_started,
  operation_in_progress, no_operation, out_of_memory, unknown, SctCallback, attach_sct, running_sct,
  device_attached, dtls_close, keep_alive_timer, device_event, send_start, send_end, send_sct,
  Attacher, Run, enter, after,
}

-- nc_coap.c
unfoldable pub is_status_ok : ℕ → Bool
is_status_ok code = leb 200 code && ltb code 300

-- A redirect with a text for the host and a number for the port, or one that is not understood.
-- The host is what `cbor_value_copy_text_string` copies.
abbrev Redirect : Type 0
Redirect = Option (CString × ℕ)

-- The response to the start request. A field that is `none` has not the type that is asked for.
pub record StartResponse : Type 0 where
  pub code : Option ℕ  -- none: no response
  pub has_map : Bool  -- a payload that is a CBOR map
  pub status : Option ℕ
  pub settings : Option (ℕ × ℕ × ℕ)  -- interval, retry interval, retries: uint64_t
  pub stun : Option (CString × ℕ)
  pub redirect_to : Redirect

pub data StartStatus : Type 0 where
  status_attached status_redirect status_error : StartStatus

abbrev attach_status_attached : ℕ
attach_status_attached = 0

abbrev pub attach_status_redirect : ℕ
attach_status_redirect = 1

module _ (nn : Nn) where
  unfoldable pub coap_attach_failed : Attacher nn → Run nn
  coap_attach_failed a = (a, dtls_close ∷ [])

  -- Waits for the callback of a request that was started, and fails the attach otherwise.
  unfoldable pub started_or_failed : ErrorCode × Run nn → Run nn
  unfolding coap_attach_failed
  started_or_failed (operation_started, run) = run
  started_or_failed (_, run) = after nn run.1 (coap_attach_failed run.0)

  -- nc_attacher_attach_start_request
  unfoldable pub start_request : Bool → Attacher nn → ErrorCode × Run nn
  start_request built a =
      if a.start_callback
      then (operation_in_progress, (a, []))
      else if not built
      then (out_of_memory, (a, []))
      else (operation_started, (record a { start_callback = true }, send_start ∷ []))

  unfoldable pub send_attach_start_request : Bool → Attacher nn → Run nn
  unfolding started_or_failed
  send_attach_start_request built a = started_or_failed (start_request built a)

  -- nc_attacher_attach_end_request
  unfoldable pub end_request : Bool → Attacher nn → ErrorCode × Run nn
  end_request built a =
      if a.end_callback
      then (operation_in_progress, (a, []))
      else if not built
      then (out_of_memory, (a, []))
      else (operation_started, (record a { end_callback = true }, send_end ∷ []))

  unfoldable pub send_attach_end_request : Bool → Attacher nn → Run nn
  unfolding started_or_failed
  send_attach_end_request built a = started_or_failed (end_request built a)

  -- nc_attacher_sct_upload
  unfoldable pub sct_upload : SctCallback → Bool → Attacher nn → ErrorCode × Run nn
  sct_upload cb built a =
      if a.sct.version == a.sct.synchronized_version
      then (no_operation, (a, []))
      else elim a.sct.callback [
        | some under_way ↦ (operation_in_progress, (a, []))
        | none ↦ if not built then (out_of_memory, (a, [])) else (
          operation_started,
          (
            record a {
              sct = record (a.sct) { callback = some cb; uploading_version = a.sct.version };
            },
            send_sct (nn.set_elements a.sct.scts) ∷ [],
          ),
        )
      ]

  -- The attach goes on without an upload if there is nothing to upload.
  unfoldable pub after_upload : Bool → ErrorCode × Run nn → Run nn
  unfolding started_or_failed
  after_upload end_built (no_operation, run) =
      after nn run.1 (send_attach_end_request end_built run.0)
  after_upload end_built (ec, run) = started_or_failed (ec, run)

  unfoldable pub send_attach_sct_request : Bool → Bool → Attacher nn → Run nn
  unfolding after_upload
  send_attach_sct_request built end_built a = after_upload end_built (sct_upload attach_sct built a)

  unfoldable pub send_sct_request : Bool → Attacher nn → Run nn
  send_sct_request built a = (sct_upload running_sct built a).1

  -- nc_attacher_add_server_connect_token
  unfoldable pub add_token : CString → Bool → Attacher nn → ErrorCode × Run nn
  add_token token built a =
      let (inserted, scts') = nn.set_insert a.sct.scts token in
      let b = record a {
        sct = record (a.sct) { version = (a.sct.version + 1) % 2 ^ 64; scts = scts' };
      } in
      if not inserted
      then (out_of_memory, (b, []))
      else elim b.state [ attached ↦ (ec_ok, send_sct_request built b) | _ ↦ (ec_ok, (b, [])) ]

  -- nc_attacher_is_server_connect_tokens_synchronized
  unfoldable pub is_synchronized : Attacher nn → ErrorCode
  is_synchronized a = elim a.state [
    | attached ↦
        if a.sct.synchronized_version == a.sct.version then ec_ok else operation_in_progress
    | _ ↦ ec_ok
  ]

  -- handle_attached
  unfoldable pub handle_attached : StartResponse → Attacher nn → Option (Attacher nn)
  handle_attached r a = with_settings r.settings >>= λ b. some (with_stun r.stun b)
    where
      with_settings : Option (ℕ × ℕ × ℕ) → Option (Attacher nn)
      with_settings none = some a
      with_settings (some (interval, retry_interval, max_retries)) =
          set_settings a.keep_alive (u32 interval) (u32 retry_interval) (u32 max_retries) >>= λ ka.
          some (record a { keep_alive = ka })

      with_stun : Option (CString × ℕ) → Attacher nn → Attacher nn
      with_stun none b = b
      with_stun (some (host, port)) b = if ltb 255 (length host) then b else record b {
        stun_host = host ++ replicate (256 - length host) 0;
        stun_port = port % 2 ^ 16;
      }

  -- handle_redirect: the host is copied without a zero behind it
  unfoldable pub handle_redirect : Redirect → Attacher nn → StartStatus × Attacher nn
  handle_redirect none a = (status_error, a)
  handle_redirect (some (host, port)) a =
      if ltb (length host) 1 || ltb 256 (length host) then (status_error, a) else (
        status_redirect,
        record a {
          dns_buffer = host ++ drop (length host) a.dns_buffer;
          current_port = port % 2 ^ 16;
        },
      )

  -- coap_attach_start_handle_response
  unfoldable pub handle_start_response :
      StartResponse → Attacher nn → Option (StartStatus × Attacher nn)
  handle_start_response r a = elim r.code [
    | none ↦ some (status_error, a)
    | some code ↦
        if not (is_status_ok code) || not r.has_map then some (status_error, a) else elim r.status [
          | none ↦ some (status_error, a)
          | some s ↦
              if s == attach_status_attached
              then (handle_attached r a >>= λ b. some (status_attached, b))
              else if s == attach_status_redirect
              then some (handle_redirect r.redirect_to a)
              else some (status_error, a)
        ]
  ]

  -- coap_attach_start_callback
  unfoldable pub start_callback_of : StartStatus → Bool → Bool → Attacher nn → Run nn
  unfolding coap_attach_failed
  start_callback_of status built end_built a = elim a.module_state [
    | module_closed ↦ coap_attach_failed a
    | setup ↦ by_status status
    | running ↦ by_status status
  ]
    where
      by_status : StartStatus → Run nn
      by_status status_attached = send_attach_sct_request built end_built a
      by_status status_redirect = (
        record a { state = redirect; redirect_attempts = (a.redirect_attempts + 1) % 2 ^ 8 },
        dtls_close ∷ [],
      )
      by_status status_error = coap_attach_failed a

  -- coap_attach_start_handler of nc_attacher_attach_start.c
  unfoldable pub start_response : StartResponse → Bool → Bool → Attacher nn → Option (Run nn)
  start_response r built end_built a = handle_start_response r a >>= λ (status, b).
      if a.start_callback
      then some (start_callback_of status built end_built (record b { start_callback = false }))
      else none

  -- send_attach_sct_request_callback
  unfoldable pub attach_sct_callback : ErrorCode → Bool → Attacher nn → Run nn
  unfolding coap_attach_failed
  attach_sct_callback ec end_built a = elim a.module_state [
    | module_closed ↦ coap_attach_failed a
    | setup ↦ by_code ec
    | running ↦ by_code ec
  ]
    where
      by_code : ErrorCode → Run nn
      by_code ec_ok = send_attach_end_request end_built a
      by_code _ = coap_attach_failed a

  -- send_sct_request_callback
  unfoldable pub running_sct_callback : ErrorCode → Bool → Attacher nn → Run nn
  running_sct_callback ec_ok built a = send_sct_request built a
  running_sct_callback _ built a = (a, [])

  -- sct_request_handler: the code of the response, and whether the request that may follow can be built. If there
  -- is no response, the library is asked for the code of a null pointer.
  unfoldable pub sct_response : Option ℕ → Bool → Attacher nn → Option (Run nn)
  sct_response none built a = none
  sct_response (some code) built a =
      let ok = is_status_ok code in
      let b = record a {
        sct = record (a.sct) {
          synchronized_version = if ok then a.sct.uploading_version else a.sct.synchronized_version;
          callback = none;
        };
      } in
      elim a.sct.callback [
        | none ↦ none
        | some attach_sct ↦ some (attach_sct_callback (if ok then ec_ok else unknown) built b)
        | some running_sct ↦ some (running_sct_callback (if ok then ec_ok else unknown) built b)
      ]

  -- coap_attach_end_handler of nc_attacher.c
  unfoldable pub attach_end_handler : ErrorCode → Bool → Attacher nn → Run nn
  unfolding coap_attach_failed
  attach_end_handler ec_ok built a = elim a.module_state [
    | module_closed ↦ coap_attach_failed a
    | setup ↦ now_attached
    | running ↦ now_attached
  ]
    where
      now_attached : Run nn
      now_attached =
          let (ka, call) = wait a.keep_alive in
          let (b, calls) = enter nn attached (record a { keep_alive = ka }) in
          after nn (keep_alive_timer call ∷ calls) (
            after nn (if b.has_listener then device_event device_attached ∷ [] else [])
              (send_sct_request built b))
  attach_end_handler _ built a = coap_attach_failed a

  -- coap_attach_end_handler of nc_attacher_attach_end.c; `none` is no response
  unfoldable pub end_response : Option ℕ → Bool → Attacher nn → Option (Run nn)
  end_response code built a =
      if a.end_callback
      then some (attach_end_handler (status_of code) built (record a { end_callback = false }))
      else none
    where
      status_of : Option ℕ → ErrorCode
      status_of none = unknown
      status_of (some c) = if is_status_ok c then ec_ok else unknown
