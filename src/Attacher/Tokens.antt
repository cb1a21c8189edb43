-- ===== src/Attacher/Tokens.antt =====
-- How server connect tokens reach the basestation.
use nabto_embedded_sdk.Base.{
  str_eq_iff, ◌+◌, ◌%◌, ◌^◌, ◌≤◌, ◌<◌, CString, ℕ, ◌≡◌, arith, Bool, true, none, some, [], ◌∷◌,
}
use nabto_embedded_sdk.Nn.{Nn}
use nabto_embedded_sdk.Attacher.{
  attached, ec_ok, operation_in_progress, running_sct, send_sct, Attacher,
}
use nabto_embedded_sdk.Attacher.Requests.{
  add_token, is_synchronized, sct_response, sct_upload, send_sct_request, running_sct_callback,
  is_status_ok,
}

module _ (nn : Nn) where
  -- While the device is attached and uploads tokens, one more token is added, for which there is
  -- memory. Nothing is sent then. The success of the upload is followed by one of all tokens, the new
  -- one with them, if the request can be built, and the tokens do not count as synchronized before
  -- that one succeeds.
  pub token_during_upload :
      (a : Attacher nn) (token : CString) (x y : Bool)
      → a.state ≡ attached
      → a.sct.callback ≡ some running_sct
      → a.sct.uploading_version ≤ a.sct.version
      → a.sct.version + 1 < 2 ^ 64
      → (nn.set_insert a.sct.scts token).0 ≡ true
      → let (ec, (b, calls)) = add_token nn token x a in
        (c d : Attacher nn) × (ec ≡ ec_ok)
        × (calls ≡ [])
        × (sct_response nn (some 201) true b
            ≡ some (c, send_sct (nn.set_elements (nn.set_insert a.sct.scts token).1) ∷ []))
        × (is_synchronized nn c ≡ operation_in_progress)
        × (nn.set_contains c.sct.scts token ≡ true)
        × (sct_response nn (some 201) y c ≡ some (d, []))
        × (is_synchronized nn d ≡ ec_ok)
  unfolding add_token sct_response is_synchronized running_sct_callback send_sct_request sct_upload
      is_status_ok
  token_during_upload a token x y s cb le small memory =
      let v : ℕ = (a.sct.version + 1) % 2 ^ 64 in
      let c : Attacher nn = record a {
        sct = record {
          scts = (nn.set_insert a.sct.scts token).1;
          version = v;
          synchronized_version = a.sct.uploading_version;
          uploading_version = v;
          callback = some running_sct;
        };
      } in
      let d : Attacher nn = record c {
        sct = record (c.sct) { synchronized_version = v; callback = none };
      } in
      (
        c,
        d,
        ground arith,
        ground arith,
        ground arith,
        ground arith,
        ground (arith, nn.set_insert_true a.sct.scts token token memory, str_eq_iff token token),
        ground arith,
        ground arith,
      )
