-- ===== src/Proxy/Rounds.antt =====
-- A whole round of the proxy's thread: a connection is accepted, a message received, handled and
-- answered, and the connection closed.
use shp.Base.{ℕ, ◌+◌, ◌<◌, ◌≡◌, inl, inr, refl, ◌∙◌, ap, ap₂, Bool-cases, none, some, Option, done}
use shp.Memory.{u32_mod}
use shp.ErrorCodes.{is_ok, ok, eq_of_is_ok}
use shp.Message.{Message}
use shp.Queue.Order.{IsValid}
use shp.Os.{Os}
use shp.Os.Laws.{RecvLaws, SendLaws, IsBytewise}
use shp.SocketServer.Reception.{
  Reception, nobody, broken, came, Receives, refused, broke_off, received,
}
use shp.SocketServer.{ServerSocket, accept_client, recv_message}
use shp.SocketServer.Accepting.{AcceptsSettable, accept_client_settable}
use shp.Transfer.Ends.{recv_parts-Answers}
use shp.Head.Serving.{close_client-Ends}
use shp.Proxy.Version.{Directory}
use shp.Proxy.Thread.{Served, leak, serve}
use shp.Proxy.Serving.{
  Answerable, Handles, only_answered, configured, queued, lost, dispatch-Handles,
}

-- All but the socket is as it was, save that a message may be lost.
pub record Unhandled (m : Option Message) (s s' : Served) : Type 0 where
  pub same_queue : s'.queue ≡ s.queue
  pub same_config : s'.config ≡ s.config
  pub lost : s'.leaked ≡ (leak m s).leaked

-- A message was handled; then the connection was closed.
pub record Handled (m : Message) (s s' : Served) : Type 0 where
  pub handled : Served
  pub handles : Handles m s handled
  pub closed : s' ≡ record handled { socket = s'.socket }

-- What a round does with what came.
abbrev pub Serves : Reception → Served → Served → Type 0
Serves nobody s s' = Unhandled none s s'
Serves (broken m) s s' = Unhandled m s s'
Serves (came m) s s' = Handled m s s'

leak-Unhandled :
    (m : Option Message) (s : Served) (socket closed : ServerSocket)
    → Unhandled m s (record (leak m (record s { socket = socket })) { socket = closed })
leak-Unhandled none s socket closed = record { same_queue = refl; same_config = refl; lost = refl }
leak-Unhandled (some m) s socket closed = record {
  same_queue = refl;
  same_config = refl;
  lost = refl;
}

-- The handlers do not look at which connection the message came on, but to answer.
Handles-Handled :
    (m : Message) (s s2 : Served) (socket closed : ServerSocket)
    → Handles m (record s { socket = socket }) s2
    → Handled m s (record s2 { socket = closed })
Handles-Handled m s _ socket closed (only_answered kind) = record {
  handled = s;
  handles = only_answered kind;
  closed = refl;
}
Handles-Handled m s _ socket closed (configured {c} same takes) = record {
  handled = record s { config = c };
  handles = configured same takes;
  closed = refl;
}
Handles-Handled m s _ socket closed (queued {q} same at_end) = record {
  handled = record s { queue = q };
  handles = queued same at_end;
  closed = refl;
}
Handles-Handled m s _ socket closed (lost a b c d e) = record {
  handled = leak (some m) s;
  handles = lost a b c d e;
  closed = refl;
}

module _ (os : Os) (sends : SendLaws os) (recvs : RecvLaws os) (bytewise : IsBytewise os recvs)
    (d : Directory) (now : ℕ) where
  -- On every answer of the operating system, a round of the proxy's thread ends without undefined
  -- behaviour where a message that is received can be answered, until the ids run out and as long as
  -- descriptors fit into an fd_set. Where no client could be accepted nothing changes, and a message of
  -- which only the header came is lost. Of a message that was received: a configuration is taken, an
  -- event is queued behind all that wait, a message of an unknown kind is never deleted, and a question
  -- for a version, a registration or a command changes nothing.
  pub serve-Handles :
      (s : Served) (w : os.World)
      → AcceptsSettable os
      → IsValid s.queue
      → s.queue.message_id + 1 < u32_mod
      → ((socket : ServerSocket) (m : Message) (w1 w2 : os.World)
          → accept_client os s.socket w ≡ done ((ok, socket), w1)
          → recv_message os socket w1 ≡ done ((ok, some m), w2)
          → Answerable d now m s.config)
      → (r : Reception) × (s' : Served) × (w' : os.World) × Receives os s.socket w r
        × (serve os d now s w ≡ done (s', w'))
        × Serves r s s'
  unfolding serve recv_message
  serve-Handles s w small valid room readable =
      let (accepted, socket, w1, accepts, which) = accept_client_settable os small s.socket w in
      let s1 = record s { socket = socket } in
      elim which [
        | inr failure ↦
            let (closed, w', closes) = close_client-Ends os sends recvs bytewise socket w1 in
            (
              nobody,
              record s { socket = closed },
              w',
              refused accepts failure,
              rw (accepts, failure, failure, closes),
              leak-Unhandled none s socket closed,
            )
        | inl held ↦
            let accepted_ok : accept_client os s.socket w ≡ done ((ok, socket), w1) =
              accepts ∙ ap (λ c. done ((c, socket), w1)) (eq_of_is_ok accepted held.0) in
            let (r, receives, answered) =
              recv_parts-Answers os recvs bytewise socket.accept_fd socket.read_timeout held.1 w1 in
            elim (Bool-cases (is_ok r.0.0)) [
              | inr failure ↦
                  let lost = leak r.0.1 s1 in
                  let (closed, w', closes) =
                    close_client-Ends os sends recvs bytewise lost.socket r.1 in
                  (
                    broken r.0.1,
                    record lost { socket = closed },
                    w',
                    broke_off accepted_ok receives failure,
                    rw (accepts, held.0, receives, failure, closes),
                    leak-Unhandled r.0.1 s socket closed,
                  )
              | inl success ↦ elim answered [
                | inl failure ↦ cc
                | inr there ↦
                    let whole : recv_message os socket w1 ≡ done ((ok, some there.0), r.1) =
                      receives
                      ∙ ap₂ (λ c m. done ((c, m), r.1)) (eq_of_is_ok r.0.0 success) there.1 in
                    let answerable = readable socket there.0 w1 r.1 accepted_ok whole in
                    let (s2, w2, dispatches, handles) =
                      dispatch-Handles os sends recvs bytewise d now there.0 s1 r.1 held.1 valid
                        room answerable in
                    let (closed, w', closes) =
                      close_client-Ends os sends recvs bytewise s2.socket w2 in
                    (
                      came there.0,
                      record s2 { socket = closed },
                      w',
                      received accepted_ok whole,
                      rw (accepts, held.0, receives, success, there.1, dispatches, closes),
                      Handles-Handled there.0 s s2 socket closed handles,
                    )
              ]
            ]
      ]
