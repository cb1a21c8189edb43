-- ===== src/Streams/Reads.antt =====
-- What a read does with the bytes of a stream, and that its loop ends.
use nabto_embedded_sdk.Base.{
  append_assoc, ℕ, zero, suc, ◌+◌, ◌-◌, ◌<◌, ◌≡◌, ◌≢◌, ◌⊎◌, inl, inr, refl, ap, ◌∙◌, arith, true,
  none, some, List, [], ◌∷◌, ◌++◌, length, length-append, ◌==◌, Bool-cases,
}
use nabto_embedded_sdk.Attacher.{ErrorCode, ec_ok}
use nabto_embedded_sdk.Streams.{
  StreamLib, read_done, status_to_ec, is_ok_status, Stream, StreamRun, resolve_read, store,
  do_read_in, do_read,
}
use nabto_embedded_sdk.Streams.Io.{ReadLaws, status_to_ec-ok}

no_bytes : (bytes xs ys : List ℕ) → (length bytes == 0) ≡ true → bytes ++ xs ≡ ys → xs ≡ ys
no_bytes [] xs ys h e = e
no_bytes (b ∷ bytes) xs ys h e = ground arith

module _ (sl : StreamLib) (contents : sl.Protocol → List ℕ) (laws : ReadLaws sl contents) where
  -- What a read for all bytes leads to: it waits with what it has, and then the protocol was asked last for all
  -- the room that is left and gave nothing; it ends when the buffer is full; or it ends with an error and
  -- what it has. The bytes in the buffer and those that are still to come are always the bytes that there
  -- were.
  pub AllRead : ℕ → Stream sl → StreamRun sl → Type 0
  AllRead id s run =
      ((run.1 ≡ [])
        × (run.0.read_all_cb ≡ some id)
        × (run.0.read_data ++ contents run.0.protocol ≡ s.read_data ++ contents s.protocol)
        × (length run.0.read_data + run.0.read_room ≡ length s.read_data + s.read_room)
        × ((p : sl.Protocol) × (is_ok_status (sl.read_buffer run.0.read_room p).0 ≡ true)
            × (length (sl.read_buffer run.0.read_room p).1 ≡ 0)
            × (run.0.protocol ≡ (sl.read_buffer run.0.read_room p).2)))
      ⊎ ((bytes : List ℕ) × (run.1 ≡ read_done ec_ok id bytes ∷ [])
          × (run.0.read_all_cb ≡ none)
          × (bytes ++ contents run.0.protocol ≡ s.read_data ++ contents s.protocol)
          × (length bytes ≡ length s.read_data + s.read_room))
      ⊎ ((ec : ErrorCode) × (bytes : List ℕ) × (rest : List ℕ) × (run.1
            ≡ read_done ec id bytes ∷ [])
          × (ec ≢ ec_ok)
          × (run.0.read_all_cb ≡ none)
          × (bytes ++ rest ≡ s.read_data ++ contents s.protocol))

  -- The first bytes are stored, and the read goes on.
  AllRead-store :
      (id : ℕ) (s : Stream sl) (run : StreamRun sl)
      → is_ok_status (sl.read_buffer s.read_room s.protocol).0 ≡ true
      → AllRead id
          (store sl
            (sl.read_buffer s.read_room s.protocol).1
            (sl.read_buffer s.read_room s.protocol).2
            s)
          run
      → AllRead id s run
  unfolding AllRead store
  AllRead-store id s run ok outcome =
      let bytes = (sl.read_buffer s.read_room s.protocol).1 in
      let next = (sl.read_buffer s.read_room s.protocol).2 in
      let same : (s.read_data ++ bytes) ++ contents next ≡ s.read_data ++ contents s.protocol =
        append_assoc s.read_data bytes (contents next)
        ∙ ap (λ xs. s.read_data ++ xs) (laws.gives s.read_room s.protocol ok) in
      let size : length (s.read_data ++ bytes) + (s.read_room - length bytes)
          ≡ length s.read_data + s.read_room =
        omega (arith, length-append s.read_data bytes, laws.at_most s.read_room s.protocol ok) in
      elim outcome [
        | inl (calls, cb, kept, room, asked) ↦ inl (calls, cb, kept ∙ same, room ∙ size, asked)
        | inr (inl (read, calls, cb, kept, full)) ↦
            inr (inl (read, calls, cb, kept ∙ same, full ∙ size))
        | inr (inr (ec, read, rest, calls, bad, cb, kept)) ↦
            inr (inr (ec, read, rest, calls, bad, cb, kept ∙ same))
      ]

  do_read_in-AllRead :
      (n : ℕ) (id : ℕ) (s : Stream sl)
      → s.read_all_cb ≡ some id
      → s.read_room < n
      → AllRead id s (do_read_in sl n s)
  unfolding AllRead do_read_in resolve_read store
  do_read_in-AllRead zero id s h k = absurd (omega arith)
  do_read_in-AllRead (suc n) id s h k =
      let bytes = (sl.read_buffer s.read_room s.protocol).1 in
      let next = (sl.read_buffer s.read_room s.protocol).2 in
      elim (Bool-cases (is_ok_status (sl.read_buffer s.read_room s.protocol).0)) [
        | inr bad ↦ inr (
            inr (
              status_to_ec (sl.read_buffer s.read_room s.protocol).0,
              s.read_data,
              contents s.protocol,
              ground (arith, h, bad),
              status_to_ec-ok (sl.read_buffer s.read_room s.protocol).0 bad,
              ground (arith, h, bad),
              refl,
            ))
        | inl ok ↦ elim (Bool-cases (length bytes == 0)) [
          | inl empty ↦ inl (
            ground (arith, h, ok, empty),
            ground (arith, h, ok, empty),
            ground (
              arith,
              h,
              ok,
              empty,
              no_bytes bytes (contents next) (contents s.protocol) empty
                  (laws.gives s.read_room s.protocol ok),
            ),
            ground (arith, h, ok, empty),
            (
              s.protocol,
              ground (arith, h, ok, empty),
              ground (arith, h, ok, empty),
              ground (arith, h, ok, empty),
            ),
          )
          | inr more ↦ elim (Bool-cases (s.read_room - length bytes == 0)) [
            | inl full ↦ AllRead-store id s (do_read_in sl (suc n) s) ok (
                inr (
                  inl (
                    s.read_data ++ bytes,
                    ground (arith, h, ok, more, full),
                    ground (arith, h, ok, more, full),
                    ground (arith, h, ok, more, full),
                    ground (arith, full),
                  )))
            | inr left ↦
                let goes_on : do_read_in sl (suc n) s ≡ do_read_in sl n (store sl bytes next s) =
                  ground (arith, h, ok, more, left) in
                let rest =
                  do_read_in-AllRead n id (store sl bytes next s) h (ground (arith, more, k)) in
                rw goes_on (AllRead-store id s (do_read_in sl n (store sl bytes next s)) ok rest)
          ]
        ]
      ]

  -- A read for all bytes goes on, over a protocol that gives the bytes that came in from the front
  -- and at most as many as it is asked for: its loop ends, and the read waits with what it has,
  -- which it only does after the protocol gave nothing for all the room that is left, has filled the
  -- buffer, or failed with what it has. The bytes in the buffer and those still to
  -- come are those that there were, in their order; after a failure the buffer holds the first of
  -- them.
  pub do_read-AllRead :
      (id : ℕ) (s : Stream sl) → s.read_all_cb ≡ some id → AllRead id s (do_read sl s)
  unfolding do_read
  do_read-AllRead id s h = do_read_in-AllRead (suc s.read_room) id s h (omega arith)
