-- ===== src/Proxy/Handling.antt =====
-- The handlers of an event and of a command.
use shp.Base.{◌+◌, ◌<◌, ◌≡◌, true, [], ◌∷◌, ◌++◌, done, arith}
use shp.Memory.{u32_mod}
use shp.Message.{Message, MessageId, new_message}
use shp.Queue.{Queue, add}
use shp.Queue.Order.{IsValid}
use shp.Queue.Fifo.{contents, add-contents}
use shp.Os.{Os}
use shp.Os.Ends.{Ends}
use shp.Os.Laws.{SendLaws}
use shp.Socket.{is_settable}
use shp.SocketServer.{ServerSocket, send_message}
use shp.Transfer.Ends.{send_parts-Ends}
use shp.Proxy.{process_message_event}

module _ (os : Os) (sends : SendLaws os) (socket : ServerSocket)
    (open_fd : is_settable socket.accept_fd ≡ true) where
  open os use {World}

  pub answer-Ends : (id : MessageId) → Ends (send_message os (new_message id) socket)
  unfolding send_message new_message
  answer-Ends id w =
      send_parts-Ends os sends socket.accept_fd socket.write_timeout (new_message id) open_fd
        (omega arith) (omega arith) w

  -- On an open connection and until the ids wrap, an event that the proxy receives goes behind all
  -- that wait, whatever becomes of the answer.
  pub process_message_event_lem :
      (message : Message) (q : Queue Message) (w : World)
      → IsValid q
      → q.message_id + 1 < u32_mod
      → (q' : Queue Message) × (w' : World) × (process_message_event os message socket q w
          ≡ done (q', w'))
        × (contents q' ≡ contents q ++ message ∷ [])
  unfolding process_message_event
  process_message_event_lem message q w valid room =
      let ((result, w1), answers) = answer-Ends MessageId.send_event_result w in
      ((add message q).1, w1, rw answers, add-contents message q valid room)
