-- ===== src/Streams/Writes.antt =====
-- What a write does with the bytes of a stream, and that its loop ends.
use nabto_embedded_sdk.Base.{
  append-nil, append_assoc, ℕ, zero, suc, ◌-◌, ◌<◌, ◌≡◌, ◌≢◌, ◌⊎◌, inl, inr, refl, ap, ◌∙◌, arith,
  true, none, some, List, [], ◌∷◌, ◌++◌, length, take, drop, ◌==◌, Bool-cases,
}
use nabto_embedded_sdk.Attacher.{ErrorCode, ec_ok}
use nabto_embedded_sdk.Streams.{
  app_data_write, write_if_set, application_event, StreamLib, done, status_to_ec, is_ok_status,
  Stream, StreamRun, do_write_in, do_write_all, async_write,
}
use nabto_embedded_sdk.Streams.Io.{WriteLaws, status_to_ec-ok}

take-drop : (n : ℕ) (xs : List ℕ) → take n xs ++ drop n xs ≡ xs
take-drop zero xs = refl
take-drop (suc n) [] = refl
take-drop (suc n) (x ∷ xs) = ap (λ ys. x ∷ ys) (take-drop n xs)

take_all : (n : ℕ) (xs : List ℕ) → n ≡ length xs → take n xs ≡ xs
take_all zero [] h = refl
take_all zero (x ∷ xs) h = ground arith
take_all (suc n) [] h = ground arith
take_all (suc n) (x ∷ xs) h = ap (λ ys. x ∷ ys) (take_all n xs (omega (arith, h)))

length-drop : (n : ℕ) (xs : List ℕ) → length (drop n xs) ≡ length xs - n
length-drop zero xs = omega arith
length-drop (suc n) [] = omega arith
length-drop (suc n) (x ∷ xs) = omega (arith, length-drop n xs)

take_none : (n : ℕ) (bytes xs ys : List ℕ) → (n == 0) ≡ true → xs ≡ ys ++ take n bytes → xs ≡ ys
take_none zero bytes xs ys h e = e ∙ append-nil ys
take_none (suc n) bytes xs ys h e = ground arith

module _ (sl : StreamLib) (sent : sl.Protocol → List ℕ) (laws : WriteLaws sl sent) where
  -- What a write leads to: it waits with the bytes that are left, and then the protocol was given all of them
  -- last and took none; or it ends when all are taken, or with an error.
  pub AllWritten : ℕ → Stream sl → StreamRun sl → Type 0
  AllWritten id s run =
      ((run.1 ≡ [])
        × (run.0.write_cb ≡ some id)
        × (sent run.0.protocol ++ run.0.write_data ≡ sent s.protocol ++ s.write_data)
        × ((p : sl.Protocol) × (is_ok_status (sl.write_buffer run.0.write_data p).0 ≡ true)
            × ((sl.write_buffer run.0.write_data p).1 ≡ 0)
            × (run.0.protocol ≡ (sl.write_buffer run.0.write_data p).2)))
      ⊎ ((run.1 ≡ done ec_ok id ∷ [])
          × (run.0.write_cb ≡ none)
          × (sent run.0.protocol ≡ sent s.protocol ++ s.write_data))
      ⊎ ((ec : ErrorCode) × (run.1 ≡ done ec id ∷ []) × (ec ≢ ec_ok) × (run.0.write_cb ≡ none))

  -- The first bytes are taken, and the write goes on with those that are left.
  AllWritten-taken :
      (id : ℕ) (s : Stream sl) (run : StreamRun sl)
      → is_ok_status (sl.write_buffer s.write_data s.protocol).0 ≡ true
      → AllWritten id
          (record s {
            protocol = (sl.write_buffer s.write_data s.protocol).2;
            write_data = drop (sl.write_buffer s.write_data s.protocol).1 s.write_data;
          })
          run
      → AllWritten id s run
  unfolding AllWritten
  AllWritten-taken id s run ok outcome =
      let written = (sl.write_buffer s.write_data s.protocol).1 in
      let next = (sl.write_buffer s.write_data s.protocol).2 in
      let same : sent next ++ drop written s.write_data ≡ sent s.protocol ++ s.write_data =
        ap (λ xs. xs ++ drop written s.write_data) (laws.takes s.write_data s.protocol ok)
        ∙ append_assoc (sent s.protocol) (take written s.write_data) (drop written s.write_data)
        ∙ ap (λ xs. sent s.protocol ++ xs) (take-drop written s.write_data) in
      elim outcome [
        | inl (calls, cb, kept, asked) ↦ inl (calls, cb, kept ∙ same, asked)
        | inr (inl (calls, cb, all)) ↦ inr (inl (calls, cb, all ∙ same))
        | inr (inr (ec, calls, bad, cb)) ↦ inr (inr (ec, calls, bad, cb))
      ]

  do_write_in-AllWritten :
      (n : ℕ) (id : ℕ) (s : Stream sl)
      → s.write_cb ≡ some id
      → length s.write_data < n
      → AllWritten id s (do_write_in sl n s)
  unfolding AllWritten do_write_in
  do_write_in-AllWritten zero id s h k = absurd (omega arith)
  do_write_in-AllWritten (suc n) id s h k =
      let written = (sl.write_buffer s.write_data s.protocol).1 in
      let next = (sl.write_buffer s.write_data s.protocol).2 in
      elim (Bool-cases (is_ok_status (sl.write_buffer s.write_data s.protocol).0)) [
        | inr bad ↦ inr (
            inr (
              status_to_ec (sl.write_buffer s.write_data s.protocol).0,
              ground (arith, h, bad),
              status_to_ec-ok (sl.write_buffer s.write_data s.protocol).0 bad,
              ground (arith, h, bad),
            ))
        | inl ok ↦
            let took = laws.takes s.write_data s.protocol ok in
            elim (Bool-cases (written == 0)) [
              | inl nothing ↦ inl (
                ground (arith, h, ok, nothing),
                ground (arith, h, ok, nothing),
                ground (
                  arith,
                  h,
                  ok,
                  nothing,
                  take_none written s.write_data (sent next) (sent s.protocol) nothing took,
                ),
                (
                  s.protocol,
                  ground (arith, h, ok, nothing),
                  ground (arith, h, ok, nothing),
                  ground (arith, h, ok, nothing),
                ),
              )
              | inr some_bytes ↦ elim (Bool-cases (written == length s.write_data)) [
                | inl all ↦ inr (
                    inl (
                      ground (arith, h, ok, some_bytes, all),
                      ground (arith, h, ok, some_bytes, all),
                      ground (
                        arith,
                        h,
                        ok,
                        some_bytes,
                        all,
                        took,
                        take_all written s.write_data (ground (arith, all)),
                      ),
                    ))
                | inr left ↦
                    let t : Stream sl = record s {
                      protocol = next;
                      write_data = drop written s.write_data;
                    } in
                    let goes_on : do_write_in sl (suc n) s ≡ do_write_in sl n t =
                      ground (arith, h, ok, some_bytes, left) in
                    let shorter : length (drop written s.write_data) < n = ground (
                      arith,
                      some_bytes,
                      left,
                      k,
                      length-drop written s.write_data,
                      laws.no_more s.write_data s.protocol ok,
                    ) in
                    rw goes_on (
                      AllWritten-taken id s (do_write_in sl n t) ok
                        (do_write_in-AllWritten n id t h shorter))
              ]
            ]
      ]

  -- A write goes on, over a protocol that takes bytes from the front and puts them behind those
  -- that it took before: its loop ends, and the write waits with the bytes that are left,
  -- which it only does after the protocol was given all of them and took none, is done when the protocol has taken all of them in their order, or failed.
  pub do_write_all-AllWritten :
      (id : ℕ) (s : Stream sl) → s.write_cb ≡ some id → AllWritten id s (do_write_all sl s)
  unfolding do_write_all
  do_write_all-AllWritten id s h =
      do_write_in-AllWritten (suc (length s.write_data)) id s h (omega arith)

  -- A write of no bytes is not done, as long as the protocol reports no error: it waits, and still waits after
  -- the protocol has reported that it can take bytes.
  pub empty_write_waits :
      (id : ℕ) (s : Stream sl)
      → s.write_cb ≡ none
      → ((p : sl.Protocol) → is_ok_status (sl.write_buffer [] p).0 ≡ true)
      → (async_write sl [] id s ≡ (
        ec_ok,
        (
          record s {
            protocol = (sl.write_buffer [] s.protocol).2;
            write_cb = some id;
            write_data = [];
          },
          [],
        ),
      ))
        × ((application_event sl app_data_write (async_write sl [] id s).1.0).1 ≡ [])
        × ((application_event sl app_data_write (async_write sl [] id s).1.0).0.write_cb ≡ some id)
  unfolding async_write do_write_all do_write_in application_event write_if_set
  empty_write_waits id s h ok =
      let first = laws.no_more [] s.protocol (ok s.protocol) in
      let next = (sl.write_buffer [] s.protocol).2 in
      let second = laws.no_more [] next (ok next) in
      (
        ground (arith, h, ok s.protocol, first),
        ground (arith, h, ok s.protocol, first, ok next, second),
        ground (arith, h, ok s.protocol, first, ok next, second),
      )
