-- ===== src/Proxy/Forwarding.antt =====
-- What one round of the loop that passes messages on does to the queue.
use shp.Base.{◌≡◌, ◌≤◌, subst, ℤ, true, false, List, ◌∷◌, ◌==◌, length, some, done, arith, Option}
use shp.Memory.{IsU32}
use shp.ErrorCodes.{ErrorCode, ok}
use shp.Message.{Message, block}
use shp.Os.{Os}
use shp.Os.Laws.{RecvLaws, SendLaws, IsBytewise}
use shp.Socket.{is_settable}
use shp.Socket.Ends.{close_socket-Ends}
use shp.Queue.{Queue, peek, remove}
use shp.Queue.Order.{IsValid}
use shp.Queue.Fifo.{contents, Serves, peek-Serves}
use shp.SocketClient.{close, new_client_socket}
use shp.Client.{exchange}
use shp.Client.Event.{exchange_holds, peek_ok}
use shp.Proxy.Thread.{head_network, forward}

module _ (os : Os) (sends : SendLaws os) (recvs : RecvLaws os)
    (bytewise : IsBytewise os recvs) where
  -- The queue that is left, and the exchange.
  pub forward_queue :
      (q : Queue Message) (message : Message) (waiting : List Message) (w : os.World)
      → message.payload_size ≤ length (block message.raw_payload)
      → IsU32 message.payload_size
      → IsValid q
      → contents q ≡ message ∷ waiting
      → is_settable (os.socket w).0 ≡ true
      → (answered : ErrorCode × Option Message) × (fd : ℤ) × (w1 : os.World) × (exchange os
            head_network message ok new_client_socket w
          ≡ done ((answered, record new_client_socket { socket_fd = some fd }), w1))
        × (w' : os.World) × (forward os q w ≡ done ((remove (peek q).1.id q).1, w'))
  unfolding forward close
  forward_queue q message waiting w whole word valid waits open_fd =
      let (numbered, oldest, removed, destroyed) = subst (Serves q) waits (peek-Serves q valid) in
      let nz : ((peek q).1.id == 0) ≡ false = ground arith in
      let (answered, fd, w1, exchanges, which) =
        exchange_holds os sends recvs bytewise head_network message whole word w open_fd in
      let ((t, w'), closes) = close_socket-Ends os fd w1 in
      (answered, fd, w1, exchanges, w', rw (nz, oldest, peek_ok q, exchanges, closes))

  -- Where a descriptor that fits into an fd_set can be made, and a message waits that holds its whole
  -- payload, a round of the proxy's loop ends without undefined behaviour. The oldest message, and no
  -- other, has left the queue, whatever the exchange with the head came to: also a message that the
  -- head never got is gone.
  pub forward_drops :
      (q : Queue Message) (message : Message) (waiting : List Message) (w : os.World)
      → message.payload_size ≤ length (block message.raw_payload)
      → IsU32 message.payload_size
      → IsValid q
      → contents q ≡ message ∷ waiting
      → is_settable (os.socket w).0 ≡ true
      → (answered : ErrorCode × Option Message) × (fd : ℤ) × (w1 : os.World) × (exchange os
            head_network message ok new_client_socket w
          ≡ done ((answered, record new_client_socket { socket_fd = some fd }), w1))
        × (q' : Queue Message) × (w' : os.World) × (forward os q w ≡ done (q', w'))
        × (contents q' ≡ waiting)
  forward_drops q message waiting w whole word valid waits open_fd =
      let (numbered, oldest, removed, destroyed) = subst (Serves q) waits (peek-Serves q valid) in
      let (answered, fd, w1, exchanges, w', runs) =
        forward_queue q message waiting w whole word valid waits open_fd in
      (answered, fd, w1, exchanges, (remove (peek q).1.id q).1, w', runs, removed)
