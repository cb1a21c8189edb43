-- ===== src/Streams/Manager/Slots.antt =====
-- The slots for streams: no two active ones have the same id on the same connection, and what a slot
-- keeps of the stream that was in it before.
use nabto_embedded_sdk.Base.{
  ◌⊎◌, ℕ, zero, suc, ◌+◌, ◌^◌, ◌≤◌, ◌<◌, ◌≡◌, refl, ap, arith, Bool, true, false, ◌&&◌, none, some,
  List, [], ◌∷◌, ◌++◌, length, ◌==◌, leb, if◌then◌else◌, Bool-cases, Option-cases, inl, inr,
}
use nabto_embedded_sdk.Attacher.{operation_in_progress, ec_ok, aborted}
use nabto_embedded_sdk.Streams.{
  call_with, StreamLib, Done, done, async_accept, application_event, app_opened,
}
use nabto_embedded_sdk.Streams.Manager.{
  send_rst_callback, StreamPackets, packet_to, same_conn, StreamSlot, Manager, slot_init,
  slot_destroy, find_stream, take_stream, accept_stream, send_rst, packet_of_stream, remove_from,
  remove_connection, alloc_segment, free_segment,
}

module _ (sl : StreamLib) (start : sl.Protocol) where
  -- How many active slots have an id and a connection.
  unfoldable pub count_active : ℕ → ℕ → List (StreamSlot sl start) → ℕ
  count_active id conn [] = 0
  count_active id conn (s ∷ slots) =
      (if s.active && (s.stream_id == id && same_conn conn s.conn) then 1 else 0)
      + count_active id conn slots

  -- How many slots have an id and a connection, those whose stream has ended included.
  unfoldable pub count_any : ℕ → ℕ → List (StreamSlot sl start) → ℕ
  count_any id conn [] = 0
  count_any id conn (s ∷ slots) =
      (if s.stream_id == id && same_conn conn s.conn then 1 else 0) + count_any id conn slots

  count_active-any :
      (id conn : ℕ) (slots : List (StreamSlot sl start))
      → count_active id conn slots ≤ count_any id conn slots
  unfolding count_active count_any
  count_active-any id conn [] = omega arith
  count_active-any id conn (s ∷ slots) = ground (arith, count_active-any id conn slots)

  pub slots_destroy : ℕ → List (StreamSlot sl start) → List (StreamSlot sl start)
  slots_destroy i [] = []
  slots_destroy zero (s ∷ slots) = (slot_destroy sl start s).0 ∷ slots
  slots_destroy (suc i) (s ∷ slots) = s ∷ slots_destroy i slots

  count-find_stream :
      (id conn : ℕ) (slots : List (StreamSlot sl start))
      → find_stream sl start id conn slots ≡ none
      → count_any id conn slots ≡ 0
  unfolding count_any find_stream
  count-find_stream id conn [] h = refl
  count-find_stream id conn (s ∷ slots) h =
      elim (Option-cases (find_stream sl start id conn slots)) [
        | inl e ↦ ground (arith, e, h, count-find_stream id conn slots e)
        | inr (i, e) ↦ ground (arith, e, h)
      ]

  count-take_stream :
      (id conn id' conn' ref i : ℕ) (ok : Bool) (slots later : List (StreamSlot sl start))
      → take_stream sl start ok id' conn' ref slots ≡ some (i, later)
      → count_active id conn later
        ≡ (if id' == id && conn == conn' then 1 else 0) + count_active id conn slots
  unfolding count_active take_stream slot_init same_conn
  count-take_stream id conn id' conn' ref i ok [] later h = ground arith
  count-take_stream id conn id' conn' ref i ok (s ∷ slots) later h =
      elim (Option-cases (take_stream sl start ok id' conn' ref slots)) [
        | inl e ↦ ground (arith, e, h)
        | inr ((j, rest), e) ↦
            ground (arith, e, h, count-take_stream id conn id' conn' ref j ok slots rest e)
      ]

  count-slots_destroy :
      (id conn i : ℕ) (slots : List (StreamSlot sl start))
      → count_active id conn (slots_destroy i slots) ≤ count_active id conn slots
  unfolding count_active slots_destroy slot_destroy
  count-slots_destroy id conn i [] = ground arith
  count-slots_destroy id conn zero (s ∷ slots) = ground arith
  count-slots_destroy id conn (suc i) (s ∷ slots) =
      ground (arith, count-slots_destroy id conn i slots)

  count-remove_from :
      (id conn gone i : ℕ) (slots : List (StreamSlot sl start))
      → count_active id conn (remove_from sl start gone i slots).0 ≤ count_active id conn slots
  unfolding count_active remove_from same_conn
  count-remove_from id conn gone i [] = ground arith
  count-remove_from id conn gone i (s ∷ slots) =
      ground (arith, count-remove_from id conn gone (suc i) slots)

  -- No two active slots have the same id and connection.
  unfoldable pub UniqueStreams : Manager sl start → Type 0
  UniqueStreams m = (id conn : ℕ) → count_active id conn m.slots ≤ 1

  -- No more slots are active for an id and a connection, or one is, and none had them.
  Opened : ℕ → ℕ → Manager sl start → Manager sl start → Type 0
  Opened id conn m m' =
      (count_active id conn m'.slots ≤ count_active id conn m.slots)
      ⊎ (count_any id conn m.slots ≡ 0) × (count_active id conn m'.slots ≤ 1)

  -- A packet, the end of a stream, of a connection, of the sending of a reset, and the memory of segments.
  pub data ManagerStep : Manager sl start → Manager sl start → Type 0 where
    step_packet :
        {m : Manager sl start} (sp : StreamPackets) (ok : Bool) (id conn ref flags : ℕ)
        (packet : List ℕ)
        → ManagerStep m (packet_of_stream sl start sp ok id conn ref flags packet m).0
    step_destroy :
        {m : Manager sl start} (i : ℕ)
        → ManagerStep m (record m { slots = slots_destroy i m.slots })
    step_remove :
        {m : Manager sl start} (conn : ℕ) → ManagerStep m (remove_connection sl start conn m).0
    step_sent : {m : Manager sl start} → ManagerStep m (send_rst_callback sl start m)
    step_alloc : {m : Manager sl start} (ok : Bool) → ManagerStep m (alloc_segment sl start ok m).1
    step_free : {m : Manager sl start} → ManagerStep m (free_segment sl start m)

  packet_of_stream-count :
      (id' conn' : ℕ) (sp : StreamPackets) (ok : Bool) (id conn ref flags : ℕ) (packet : List ℕ)
      (m : Manager sl start)
      → Opened id' conn' m (packet_of_stream sl start sp ok id conn ref flags packet m).0
  unfolding Opened packet_of_stream accept_stream send_rst
  packet_of_stream-count id' conn' sp ok id conn ref flags packet m =
      elim (Option-cases (find_stream sl start id conn m.slots)) [
        | inr (i, e) ↦ inl (ground (arith, e))
        | inl e ↦ elim (Option-cases (take_stream sl start ok id conn ref m.slots)) [
          | inl f ↦ inl (ground (arith, e, f))
          | inr ((i, later), f) ↦
              let before = count-find_stream id conn m.slots e in
              let less = count_active-any id conn m.slots in
              let taken = count-take_stream id' conn' id conn ref i ok m.slots later f in
              elim (Bool-cases (id == id' && conn' == conn)) [
                | inl here ↦
                    inr (
                      ground (arith, here, before),
                      ground (arith, e, f, here, before, less, taken),
                    )
                | inr other ↦ inl (ground (arith, e, f, other, taken))
              ]
        ]
      ]

  ManagerStep-Opened :
      (m m' : Manager sl start) (id conn : ℕ) → ManagerStep m m' → Opened id conn m m'
  unfolding Opened remove_connection send_rst_callback alloc_segment free_segment
  ManagerStep-Opened m _ id conn (step_packet sp ok id' conn' ref flags packet) =
      packet_of_stream-count id conn sp ok id' conn' ref flags packet m
  ManagerStep-Opened m _ id conn (step_destroy i) = inl (count-slots_destroy id conn i m.slots)
  ManagerStep-Opened m _ id conn (step_remove gone) = inl (count-remove_from id conn gone 0 m.slots)
  ManagerStep-Opened m _ id conn step_sent = inl (omega arith)
  ManagerStep-Opened m _ id conn (step_alloc ok) = inl (ground arith)
  ManagerStep-Opened m _ id conn step_free = inl (omega arith)

  -- Each step keeps the active streams apart. A step after which more slots are active for an id and a connection
  -- starts where no slot has that id and that connection, neither an active one nor one whose stream has
  -- ended.
  pub ManagerStep-UniqueStreams :
      (m m' : Manager sl start) (id conn : ℕ)
      → UniqueStreams m
      → ManagerStep m m'
      → UniqueStreams m'
        × ((count_active id conn m'.slots ≤ count_active id conn m.slots)
            ⊎ (count_any id conn m.slots ≡ 0))
  unfolding UniqueStreams Opened
  ManagerStep-UniqueStreams m m' id conn h step = (
    λ id' conn'. elim (ManagerStep-Opened m m' id' conn' step) [
      | inl fewer ↦ omega (arith, fewer, h id' conn')
      | inr (fresh, one) ↦ one
    ],
    elim (ManagerStep-Opened m m' id conn step) [
      | inl fewer ↦ inl fewer
      | inr (fresh, one) ↦ inr fresh
    ],
  )

  -- A stream ends while callbacks of it wait, and another one is opened in its slot. The callbacks were called
  -- with the code for an abort, but the slot keeps them: a callback for the acceptance of the new stream is
  -- refused, and when the new stream is open, the old callback is called again.
  pub stale_callback :
      (s : StreamSlot sl start) (old new id conn ref : ℕ)
      → s.active ≡ true
      → s.stream.accept_cb ≡ some old
      → (rest : List Done) × ((slot_destroy sl start s).1 ≡ done aborted old ∷ rest)
        × (async_accept sl new (slot_init sl start id conn ref (slot_destroy sl start s).0).stream
            ≡ (
              operation_in_progress,
              (slot_init sl start id conn ref (slot_destroy sl start s).0).stream,
            ))
        × ((application_event sl app_opened
              (slot_init sl start id conn ref (slot_destroy sl start s).0).stream).1
            ≡ done ec_ok old ∷ [])
  unfolding slot_destroy slot_init async_accept application_event
  stale_callback s old new id conn ref on waits = (
    call_with aborted s.stream.read_all_cb
        ++ (call_with aborted s.stream.read_some_cb
            ++ (call_with aborted s.stream.write_cb ++ call_with aborted s.stream.close_cb)),
    ground (arith, on, waits),
    ground (arith, on, waits),
    ground (arith, on, waits),
  )

  find_stream-append :
      (conn : ℕ) (before : List (StreamSlot sl start)) (s : StreamSlot sl start)
      (after : List (StreamSlot sl start))
      → find_stream sl start 0 conn before ≡ none
      → s.stream_id ≡ 0
      → s.conn ≡ some conn
      → find_stream sl start 0 conn (before ++ (s ∷ after)) ≡ some (length before)
  unfolding find_stream same_conn
  find_stream-append conn [] s after h zero_id of_conn = ground (arith, zero_id, of_conn)
  find_stream-append conn (b ∷ before) s after h zero_id of_conn =
      elim (Option-cases (find_stream sl start 0 conn before)) [
        | inl e ↦ ground (arith, e, h, find_stream-append conn before s after e zero_id of_conn)
        | inr (i, e) ↦ ground (arith, e, h)
      ]

  -- A stream of a connection that is still there has ended, and no slot before its slot has the id zero on
  -- that connection. Then a packet with the id zero from that connection is given to the slot whose stream
  -- has ended, whatever its flags, and no stream is opened.
  pub destroyed_stream_found :
      (sp : StreamPackets) (ok : Bool) (conn ref flags : ℕ) (packet : List ℕ)
      (s : StreamSlot sl start) (before after : List (StreamSlot sl start)) (m : Manager sl start)
      → s.active ≡ true
      → s.conn ≡ some conn
      → find_stream sl start 0 conn before ≡ none
      → m.slots ≡ before ++ ((slot_destroy sl start s).0 ∷ after)
      → (packet_of_stream sl start sp ok 0 conn ref flags packet m
          ≡ (m, packet_to (length before) packet ∷ []))
        × ((slot_destroy sl start s).0.active ≡ false)
  unfolding packet_of_stream slot_destroy
  destroyed_stream_found sp ok conn ref flags packet s before after m on of_conn absent slots =
      let found =
        find_stream-append conn before (slot_destroy sl start s).0 after absent (ground (arith, on))
          (ground (arith, on, of_conn)) in
      (ground (arith, ap (find_stream sl start 0 conn) slots, found), ground (arith, on))

  -- With a limit in 64 bits, a segment is given only below it, and then one more is out; taking it back
  -- restores the count.
  pub segments_lem :
      (ok : Bool) (m : Manager sl start)
      → m.max_segments < 2 ^ 64
      → ((alloc_segment sl start ok m).0 ≡ true)
          × (m.allocated_segments < m.max_segments)
          × ((alloc_segment sl start ok m).1.allocated_segments ≤ m.max_segments)
          × (free_segment sl start (alloc_segment sl start ok m).1 ≡ m)
        ⊎ ((alloc_segment sl start ok m).0 ≡ false) × ((alloc_segment sl start ok m).1 ≡ m)
  unfolding alloc_segment free_segment
  segments_lem ok m small = elim (Bool-cases (leb m.max_segments m.allocated_segments)) [
    | inl full ↦ inr (ground (arith, full), ground (arith, full))
    | inr room ↦ elim (Bool-cases ok) [
      | inr e ↦ inr (ground (arith, room, e), ground (arith, room, e))
      | inl e ↦ inl (
        ground (arith, room, e),
        ground (arith, room),
        ground (arith, room, e),
        ground (arith, room, e),
      )
    ]
  ]
