-- ===== src/Head/Serving.antt =====
-- What one round of the head's thread does, whatever comes.
use shp.Base.{
  ◌+◌, ◌<◌, ◌≡◌, ◌≢◌, ◌∙◌, ap, ap₂, arith, ◌⊎◌, inl, inr, refl, Bool-cases, ==_iff, true, none,
  some, Option, [], ◌∷◌, ◌++◌, ◌==◌, done, minus_one,
}
use shp.Memory.{u32_mod}
use shp.ErrorCodes.{is_ok, ok, eq_of_is_ok}
use shp.Message.{Message, MessageId, message_id_code}
use shp.Queue.Order.{IsValid}
use shp.Queue.Fifo.{contents}
use shp.Os.{Os}
use shp.Os.Laws.{RecvLaws, SendLaws, IsBytewise}
use shp.Socket.{is_settable}
use shp.Socket.Ends.{close_socket-Ends}
use shp.SocketServer.{ServerSocket, accept_client, recv_message, close_client}
use shp.SocketServer.Reception.{
  Reception, nobody, broken, came, Receives, refused, broke_off, received,
}
use shp.SocketServer.Accepting.{AcceptsSettable, accept_client_settable}
use shp.Transfer.Ends.{recv_parts-Answers}
use shp.Proxy.Handling.{process_message_event_lem}
use shp.Head.Thread.{Served, leak, dispatch, serve}

-- What a round does with what came: nothing if no client came; a message that broke off is lost; an
-- event goes behind all that wait; and any other message is lost.
abbrev pub Takes : Reception → Served → Served → Type 0
Takes nobody s s' = (contents s'.queue ≡ contents s.queue) × (s'.leaked ≡ s.leaked)
Takes (broken m) s s' = (contents s'.queue ≡ contents s.queue) × (s'.leaked ≡ (leak m s).leaked)
Takes (came m) s s' =
    ((m.message_id ≡ message_id_code MessageId.send_event)
      × (contents s'.queue ≡ contents s.queue ++ m ∷ [])
      × (s'.leaked ≡ s.leaked))
    ⊎ ((m.message_id ≢ message_id_code MessageId.send_event)
        × (contents s'.queue ≡ contents s.queue)
        × (s'.leaked ≡ m ∷ s.leaked))

module _ (os : Os) (sends : SendLaws os) (recvs : RecvLaws os)
    (bytewise : IsBytewise os recvs) where
  dispatch-Takes :
      (m : Message) (s : Served) (w : os.World)
      → is_settable s.socket.accept_fd ≡ true
      → IsValid s.queue
      → s.queue.message_id + 1 < u32_mod
      → (s' : Served) × (w' : os.World) × (dispatch os m s w ≡ done (s', w')) × Takes (came m) s s'
  unfolding dispatch
  dispatch-Takes m s w open_fd valid room =
      elim (Bool-cases (m.message_id == message_id_code MessageId.send_event)) [
        | inl event ↦
            let (q', w', handles, queued) =
              process_message_event_lem os sends s.socket open_fd m s.queue w valid room in
            (
              record s { queue = q' },
              w',
              rw (event, handles),
              inl (
                (==_iff m.message_id (message_id_code MessageId.send_event)).0 event,
                queued,
                refl,
              ),
            )
        | inr other ↦ (leak (some m) s, w, rw other, inr (ground (arith, other), refl, refl))
      ]

  leak-Takes :
      (m : Option Message) (s : Served) (socket closed : ServerSocket)
      → Takes (broken m) s (record (leak m (record s { socket = socket })) { socket = closed })
  leak-Takes none s socket closed = (refl, refl)
  leak-Takes (some m) s socket closed = (refl, refl)

  pub close_client-Ends :
      (s : ServerSocket) (w : os.World)
      → (s' : ServerSocket) × (w' : os.World) × (close_client os s w ≡ done (s', w'))
  unfolding close_client
  close_client-Ends s w =
      let ((t, w'), closes) = close_socket-Ends os s.accept_fd w in
      (record s { accept_fd = minus_one }, w', rw closes)

  -- On every answer of the operating system and whatever the peer sends, a round of the head's thread
  -- ends without undefined behaviour, until the ids run out and as long as descriptors fit into an
  -- fd_set. Where no client could be accepted nothing changes. A message of which only the header came
  -- is lost. A message that was received is queued behind all that wait if it is an event, and is
  -- otherwise never deleted.
  pub serve-Takes :
      (s : Served) (w : os.World)
      → AcceptsSettable os
      → IsValid s.queue
      → s.queue.message_id + 1 < u32_mod
      → (r : Reception) × (s' : Served) × (w' : os.World) × Receives os s.socket w r
        × (serve os s w ≡ done (s', w'))
        × Takes r s s'
  unfolding serve recv_message
  serve-Takes s w small valid room =
      let (accepted, socket, w1, accepts, which) = accept_client_settable os small s.socket w in
      let s1 = record s { socket = socket } in
      elim which [
        | inr failure ↦
            let (closed, w', closes) = close_client-Ends socket w1 in
            (
              nobody,
              record s { socket = closed },
              w',
              refused accepts failure,
              rw (accepts, failure, failure, closes),
              (refl, refl),
            )
        | inl held ↦
            let accepted_ok : accept_client os s.socket w ≡ done ((ok, socket), w1) =
              accepts ∙ ap (λ c. done ((c, socket), w1)) (eq_of_is_ok accepted held.0) in
            let (r, receives, answered) =
              recv_parts-Answers os recvs bytewise socket.accept_fd socket.read_timeout held.1 w1 in
            elim (Bool-cases (is_ok r.0.0)) [
              | inr failure ↦
                  let lost = leak r.0.1 s1 in
                  let (closed, w', closes) = close_client-Ends lost.socket r.1 in
                  (
                    broken r.0.1,
                    record lost { socket = closed },
                    w',
                    broke_off accepted_ok receives failure,
                    rw (accepts, held.0, receives, failure, closes),
                    leak-Takes r.0.1 s socket closed,
                  )
              | inl success ↦ elim answered [
                | inl failure ↦ cc
                | inr there ↦
                    let (s2, w2, dispatches, takes) =
                      dispatch-Takes there.0 s1 r.1 held.1 valid room in
                    let (closed, w', closes) = close_client-Ends s2.socket w2 in
                    (
                      came there.0,
                      record s2 { socket = closed },
                      w',
                      received accepted_ok (
                          receives
                          ∙ ap₂ (λ c m. done ((c, m), r.1)) (eq_of_is_ok r.0.0 success) there.1),
                      rw (accepts, held.0, receives, success, there.1, dispatches, closes),
                      takes,
                    )
              ]
            ]
      ]
