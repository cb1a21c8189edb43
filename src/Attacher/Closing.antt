-- ===== src/Attacher/Closing.antt =====
-- What a closed attacher does, and that closing ends.
use nabto_embedded_sdk.Base.{
  sym, ◌||◌, not, Bool-cases, ap, ◌∙◌, refl, any-append, ◌≡◌, ◌≢◌, arith, Bool, true, false, none,
  some, List, [], ◌∷◌, ◌++◌, ◌⊎◌, inl, inr, any, >>=-eq-some, Option-cases,
}
use nabto_embedded_sdk.Nn.{Nn}
use nabto_embedded_sdk.Attacher.{
  State, dns, dtls_attach_request, retry_wait, access_denied_wait, redirect, attached, closed,
  running, module_closed, Ip, device_attached, Call, resolve, set_sni, dtls_connect,
  post_close_event, closed_callback, send_sct, running_sct, device_event, send_start, send_end,
  Attacher, Run, entered, handle_state_change, enter, after, do_close, resolve_close, reattach,
  async_close, nc_attacher_stop,
}
use nabto_embedded_sdk.Attacher.Requests.{
  add_token, StartStatus, coap_attach_failed, StartResponse, start_response, sct_response,
  end_response, sct_upload, send_sct_request, attach_sct_callback, running_sct_callback,
  attach_end_handler, start_callback_of, handle_start_response, handle_attached, handle_redirect,
}
use nabto_embedded_sdk.Attacher.Events.{
  closed_in, event_closed, Input, close_input, stop_input, close_event, reattach_event,
  resolved_event, dtls_event, start_event, sct_event, end_event, timer_event, data_event,
  token_event, step, steps, dns_resolved, dtls_event_handler, keep_alive_event, dtls_data_handler,
  handle_keep_alive_data,
}

-- A call that goes on with an attach, the upload of tokens included unless `up`.
pub attaching : Bool → Call → Bool
attaching up (resolve name) = true
attaching up (set_sni name) = true
attaching up dtls_connect = true
attaching up send_start = true
attaching up send_end = true
attaching up (device_event device_attached) = true
attaching up (send_sct tokens) = not up
attaching up _ = false

module _ (nn : Nn) where
  -- Reading the response to the start request changes neither state.
  pub response_keeps :
      (r : StartResponse) (a b : Attacher nn) (status : StartStatus)
      → handle_start_response nn r a ≡ some (status, b)
      → (b.module_state ≡ a.module_state) × (b.state ≡ a.state) × (b.sct ≡ a.sct)
  unfolding handle_start_response handle_attached handle_redirect
  response_keeps r a b status h = (ground arith, ground arith, ground arith)

  -- The device is attached, or an upload that began when it was is under way.
  pub may_upload : Attacher nn → Bool
  may_upload a = elim a.state [
    | attached ↦ true
    | _ ↦ elim a.sct.callback [ some running_sct ↦ true | _ ↦ false ]
  ]

  -- The module stays closed, the state is what it was or closed, and no call goes on with an attach; tokens are
  -- only uploaded if the device was attached or such an upload was under way.
  pub record StaysClosed (a : Attacher nn) (run : Run nn) : Type 0 where
    pub module_state : run.0.module_state ≡ module_closed
    pub state : (run.0.state ≡ a.state) ⊎ (run.0.state ≡ closed)
    pub upload : not (may_upload run.0) || may_upload a ≡ true
    pub calls : any (attaching (may_upload a)) run.1 ≡ false

  step-StaysClosed :
      (i : Input nn) (a : Attacher nn) (run : Run nn)
      → a.module_state ≡ module_closed
      → step nn i a ≡ some run
      → StaysClosed a run
  unfolding attaching may_upload add_token step dns_resolved dtls_event_handler closed_in
      keep_alive_event dtls_data_handler start_response sct_response end_response start_callback_of
      attach_sct_callback running_sct_callback send_sct_request sct_upload attach_end_handler
      coap_attach_failed handle_keep_alive_data do_close enter handle_state_change entered after
      async_close nc_attacher_stop resolve_close reattach
  step-StaysClosed close_input a run m h = record {
    module_state = ground arith;
    state = ground arith;
    upload = ground arith;
    calls = ground arith;
  }
  step-StaysClosed stop_input a run m h = record {
    module_state = ground arith;
    state = ground arith;
    upload = ground arith;
    calls = ground arith;
  }
  step-StaysClosed close_event a run m h = record {
    module_state = ground arith;
    state = ground arith;
    upload = ground arith;
    calls = ground arith;
  }
  step-StaysClosed reattach_event a run m h = record {
    module_state = ground arith;
    state = ground arith;
    upload = ground arith;
    calls = ground arith;
  }
  step-StaysClosed (resolved_event ok ips) a run m h = record {
    module_state = ground arith;
    state = ground arith;
    upload = ground arith;
    calls = ground arith;
  }
  step-StaysClosed (dtls_event event has_alpn built) a run m h = record {
    module_state = ground arith;
    state = ground arith;
    upload = ground arith;
    calls = ground arith;
  }
  step-StaysClosed (start_event r built end_built) a run m h =
      let ((status, b), e, k) = >>=-eq-some (handle_start_response nn r a) _ h in
      let (same_module, same_state, same_sct) = response_keeps r a b status e in
      record {
        module_state = ground arith;
        state = ground arith;
        upload = ground arith;
        calls = ground arith;
      }
  step-StaysClosed (sct_event none built) a run m h = absurd (ground arith)
  step-StaysClosed (sct_event (some code) built) a run m h = record {
    module_state = ground arith;
    state = ground arith;
    upload = ground arith;
    calls = ground arith;
  }
  step-StaysClosed (end_event code built) a run m h = record {
    module_state = ground arith;
    state = ground arith;
    upload = ground arith;
    calls = ground arith;
  }
  step-StaysClosed (timer_event recv_count sent_count) a run m h = record {
    module_state = ground arith;
    state = ground arith;
    upload = ground arith;
    calls = ground arith;
  }
  step-StaysClosed (token_event token built) a run m h = record {
    module_state = ground arith;
    state = ground arith;
    upload = ground arith;
    calls = ground arith;
  }
  step-StaysClosed (data_event buffer) a run m h = record {
    module_state = ground arith;
    state = ground arith;
    upload = ground arith;
    calls = ground arith;
  }

  -- Whoever may not upload may not more.
  attaching-upload :
      (up : Bool) (calls : List Call)
      → any (attaching false) calls ≡ false
      → any (attaching up) calls ≡ false
  unfolding attaching
  attaching-upload up [] h = refl
  attaching-upload up (call ∷ calls) h =
      ground (arith, h, attaching-upload up calls (ground (arith, h)))

  StaysClosed-after :
      (a b : Attacher nn) (calls : List Call) (run : Run nn)
      → StaysClosed a (b, calls)
      → StaysClosed b run
      → StaysClosed a (run.0, calls ++ run.1)
  StaysClosed-after a b calls run h k = record {
    module_state = k.module_state;
    state = ground (arith, h.state, k.state);
    upload = ground (arith, h.upload, k.upload);
    calls =
        let later : any (attaching (may_upload a)) run.1 ≡ false =
          elim (Bool-cases (may_upload b)) [
            | inl e ↦ ground (arith, e, h.upload, k.calls)
            | inr e ↦
                attaching-upload (may_upload a) run.1
                  (ap (λ up. any (attaching up) run.1) (sym e) ∙ k.calls)
          ] in
        ground (arith, any-append (attaching (may_upload a)) calls run.1, h.calls, later);
  }

  -- Whatever inputs a closed module gets, closes, stops, timers, answers, events and data of the DTLS
  -- connection and new tokens, it stays closed, its state is what it was or closed, and it neither resolves
  -- a name, connects, sends the request that starts or ends an attach, nor reports an attach. It sends no
  -- tokens either, unless it was attached at the start or the upload of an attached device was under way.
  pub steps-StaysClosed :
      (is : List (Input nn)) (a : Attacher nn) (run : Run nn)
      → a.module_state ≡ module_closed
      → steps nn is a ≡ some run
      → StaysClosed a run
  unfolding steps
  steps-StaysClosed [] a run m h = record {
    module_state = ground arith;
    state = ground arith;
    upload = ground arith;
    calls = ground arith;
  }
  steps-StaysClosed (i ∷ is) a run m h =
      let ((b, calls), e, k) = >>=-eq-some (step nn i a) _ h in
      let ((c, more), f, g) = >>=-eq-some (steps nn is b) _ k in
      let first = step-StaysClosed i a (b, calls) m e in
      let rest = steps-StaysClosed is b (c, more) first.module_state f in
      let all = StaysClosed-after a b calls (c, more) first rest in
      record {
        module_state = ground (arith, all.module_state);
        state = ground (arith, all.state);
        upload = ground (arith, all.upload);
        calls = ground (arith, all.calls);
      }

  -- What ends the module in a state: the answer that is waited for, if there is one.
  pub data Ends : State → List (Input nn) → Type 0 where
    ends_dns : (ok : Bool) (ips : List Ip) → Ends dns (resolved_event ok ips ∷ [])
    ends_request : (b c : Bool) → Ends dtls_attach_request (dtls_event event_closed b c ∷ [])
    ends_attached : (b c : Bool) → Ends attached (dtls_event event_closed b c ∷ [])
    ends_redirect : (b c : Bool) → Ends redirect (dtls_event event_closed b c ∷ [])
    ends_retry : Ends retry_wait []
    ends_denied : Ends access_denied_wait []
    ends_closed : Ends closed []

  unfoldable pub is_closed_callback : Call → Bool
  is_closed_callback closed_callback = true
  is_closed_callback _ = false

  unfoldable pub is_post_close : Call → Bool
  is_post_close post_close_event = true
  is_post_close _ = false

  pub steps-close_input :
      (a : Attacher nn) (s : State) (is : List (Input nn))
      → a.module_state ≡ running
      → a.state ≡ s
      → Ends s is
      → steps nn (close_input ∷ is) a ≢ none
  unfolding steps step dns_resolved dtls_event_handler do_close enter handle_state_change entered
      after async_close resolve_close is_post_close is_closed_callback
  steps-close_input a dns _ m e (ends_dns ok ips) = λ n. ground arith
  steps-close_input a dtls_attach_request _ m e (ends_request x y) = λ n. ground arith
  steps-close_input a attached _ m e (ends_attached x y) = λ n. ground arith
  steps-close_input a redirect _ m e (ends_redirect x y) = λ n. ground arith
  steps-close_input a retry_wait _ m e ends_retry = λ n. ground arith
  steps-close_input a access_denied_wait _ m e ends_denied = λ n. ground arith
  steps-close_input a closed _ m e ends_closed = λ n. ground arith

  pub steps_ended :
      (a : Attacher nn) (s : State) (is : List (Input nn)) (run : Run nn)
      → a.module_state ≡ running
      → a.state ≡ s
      → Ends s is
      → steps nn (close_input ∷ is) a ≡ some run
      → (run.0.state ≡ closed)
        × (any is_post_close run.1 ≡ true)
        × (run.0.closed_cb ≡ true)
        × (any is_closed_callback run.1 ≡ false)
  unfolding steps step dns_resolved dtls_event_handler do_close enter handle_state_change entered
      after async_close resolve_close is_post_close is_closed_callback
  steps_ended a dns _ run m e (ends_dns ok ips) k =
      (ground arith, ground arith, ground arith, ground arith)
  steps_ended a dtls_attach_request _ run m e (ends_request x y) k =
      (ground arith, ground arith, ground arith, ground arith)
  steps_ended a attached _ run m e (ends_attached x y) k =
      (ground arith, ground arith, ground arith, ground arith)
  steps_ended a redirect _ run m e (ends_redirect x y) k =
      (ground arith, ground arith, ground arith, ground arith)
  steps_ended a retry_wait _ run m e ends_retry k =
      (ground arith, ground arith, ground arith, ground arith)
  steps_ended a access_denied_wait _ run m e ends_denied k =
      (ground arith, ground arith, ground arith, ground arith)
  steps_ended a closed _ run m e ends_closed k =
      (ground arith, ground arith, ground arith, ground arith)

  -- Closing a module that is running, in any state: after the answer that is waited for in that state,
  -- if any, the state is closed and the close event is posted, and that event makes the call of the
  -- callback that was given to the close.
  pub close_completes :
      (a : Attacher nn) (s : State) (is : List (Input nn))
      → a.module_state ≡ running
      → a.state ≡ s
      → Ends s is
      → (b : Attacher nn) × (calls : List Call) × (steps nn (close_input ∷ is) a ≡ some (b, calls))
        × (b.state ≡ closed)
        × (any is_post_close calls ≡ true)
        × (any is_closed_callback (resolve_close nn b).1 ≡ true)
  unfolding resolve_close is_closed_callback
  close_completes a s is m e ends = elim (Option-cases (steps nn (close_input ∷ is) a)) [
    | inl stuck ↦ absurd (steps-close_input a s is m e ends stuck)
    | inr ((b, calls), f) ↦
        let (state, posted, callback, quiet) = steps_ended a s is (b, calls) m e ends f in
        (b, calls, f, state, posted, ground arith)
  ]
