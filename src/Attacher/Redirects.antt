-- ===== src/Attacher/Redirects.antt =====
-- What a redirect to another basestation does.
use nabto_embedded_sdk.Base.{
  zero, suc, ◌+◌, ◌%◌, ◌^◌, ◌≤◌, ◌<◌, ltb, leb, CString, length, drop, All, ℕ, ◌≡◌, ◌≢◌, refl, ap,
  ◌∙◌, arith, Bool, true, false, none, some, List, [], ◌∷◌, ◌++◌, if◌then◌else◌,
}
use nabto_embedded_sdk.Nn.{Nn}
use nabto_embedded_sdk.Attacher.{
  text_of, max_redirect_follow, dns, retry_wait, redirect, running, Call, dtls_close, Attacher, Run,
  handle_state_change, enter, after,
}
use nabto_embedded_sdk.Attacher.Requests.{
  attach_status_redirect, StartResponse, start_response, start_callback_of, handle_start_response,
  handle_redirect, is_status_ok,
}
use nabto_embedded_sdk.Attacher.Events.{
  closed_in, handle_dtls_closed, reset_then, event_closed, dtls_event, start_event, step, steps,
  dtls_event_handler,
}

module _ (nn : Nn) where
  -- A host name without a zero byte.
  unfoldable pub IsName : CString → Type 0
  IsName host = All (λ c. c ≢ 0) host

  text_of-append :
      (host rest : CString) → IsName host → text_of (host ++ rest) ≡ host ++ text_of rest
  unfolding text_of IsName
  text_of-append [] rest h = refl
  text_of-append (zero ∷ host) rest (c, h) = absurd (c refl)
  text_of-append (suc c ∷ host) rest (k, h) = ap (λ l. suc c ∷ l) (text_of-append host rest h)

  -- A response that redirects to a host and a port.
  abbrev pub redirect_to : CString → ℕ → StartResponse
  redirect_to host port = record {
    code = some 201;
    has_map = true;
    status = some attach_status_redirect;
    settings = none;
    stun = none;
    redirect_to = some (host, port);
  }

  -- The state between the response and the end of the connection.
  redirected : (a : Attacher nn) (host : CString) (port : ℕ) → Attacher nn
  redirected a host port = record a {
    dns_buffer = host ++ drop (length host) a.dns_buffer;
    current_port = port % 2 ^ 16;
    start_callback = false;
    state = redirect;
    redirect_attempts = (a.redirect_attempts + 1) % 2 ^ 8;
  }

  start_redirected :
      (a : Attacher nn) (host : CString) (port : ℕ) (x y : Bool)
      → a.module_state ≡ running
      → a.start_callback ≡ true
      → 1 ≤ length host
      → length host ≤ 256
      → step nn (start_event (redirect_to host port) x y) a
        ≡ some (redirected a host port, dtls_close ∷ [])
  unfolding redirected step start_response handle_start_response handle_redirect is_status_ok
      start_callback_of
  start_redirected a host port x y m cb low high = rw (cb, m) (ground arith)

  redirect_closed :
      (b : Attacher nn) (z w : Bool)
      → b.module_state ≡ running
      → b.state ≡ redirect
      → (run : Run nn) × (step nn (dtls_event event_closed z w) b ≡ some run)
        × (run.0.dns_buffer ≡ b.dns_buffer)
        × (run.0.current_port ≡ b.current_port)
        × (run.0.redirect_attempts ≡ b.redirect_attempts)
        × (run.0.state ≡ (if leb max_redirect_follow b.redirect_attempts then retry_wait else dns))
  unfolding step dtls_event_handler closed_in handle_dtls_closed reset_then enter
      handle_state_change after
  redirect_closed b z w m e = (
    dtls_event_handler nn event_closed z w b,
    refl,
    ground arith,
    ground arith,
    ground arith,
    ground arith,
  )

  -- While the module runs and the start request is under way, a response that redirects to a host of 1
  -- to 256 characters and a port, and the end of the connection, lead to this: the name in the buffer
  -- is the host and, behind it, the text that the buffer holds from there on; the port is the low 16
  -- bits of the given one; the redirect is counted, if the count was below 255; and the state is the
  -- resolution of the name, unless the count has reached five: then it is the wait for a retry.
  pub redirect_cycle :
      (a : Attacher nn) (host : CString) (port : ℕ) (x y z w : Bool)
      → a.module_state ≡ running
      → a.start_callback ≡ true
      → a.redirect_attempts < 255
      → IsName host
      → 1 ≤ length host
      → length host ≤ 256
      → (b : Attacher nn) × (calls : List Call) × (steps nn
            (start_event (redirect_to host port) x y ∷ dtls_event event_closed z w ∷ [])
            a
          ≡ some (b, calls))
        × (text_of b.dns_buffer ≡ host ++ text_of (drop (length host) a.dns_buffer))
        × (b.current_port ≡ port % 2 ^ 16)
        × (b.redirect_attempts ≡ a.redirect_attempts + 1)
        × (b.state ≡ (if ltb a.redirect_attempts 4 then dns else retry_wait))
  unfolding steps redirected
  redirect_cycle a host port x y z w m cb small name low high =
      let ((b, calls), e, buffer, p, attempts, s) =
        redirect_closed (redirected a host port) z w m refl in
      let count : (a.redirect_attempts + 1) % 2 ^ 8 ≡ a.redirect_attempts + 1 = omega arith in
      (
        b,
        dtls_close ∷ (calls ++ []),
        rw (start_redirected a host port x y m cb low high) (rw e refl),
        ap text_of buffer ∙ text_of-append host (drop (length host) a.dns_buffer) name,
        p,
        attempts ∙ count,
        s ∙ ground (arith, count),
      )
