-- ===== src/Client/Concluding.antt =====
-- `process_configuration`: its result on every answer.
use shp.Base.{
  ℕ, ◌≡◌, ◌≢◌, ◌⊎◌, refl, sym, ℤ, true, false, minus_one, Bool-cases, inl, inr, Option, some, done,
  arith, ◌==◌, ==_iff,
}
use shp.Memory.{Memory}
use shp.ErrorCodes.{ErrorCode, is_ok, ok, invalid_state}
use shp.Message.{Message, MessageId, message_id_code}
use shp.Message.Fields.{Represents-bounded}
use shp.Os.{Os}
use shp.Os.Laws.{RecvLaws, SendLaws, IsBytewise}
use shp.Socket.{is_settable}
use shp.Socket.Ends.{close_socket-Ends}
use shp.SocketClient.{close, new_client_socket}
use shp.Transfer.Ends.{Answered}
use shp.Client.{NetworkSettings, exchange}
use shp.Client.Event.{exchange_holds}
use shp.Client.Configure.{GeneralSettings, SensorsSettings, check_result, process_configuration}
use shp.Client.Announced.{AreSettings, prepare_config_message-Represents}

-- What an exchange comes to: its failure, or a result that says whether the answer has the right id.
abbrev pub Concludes : ErrorCode × Option Message → ErrorCode → Type 0
Concludes answered result =
    (is_ok answered.0 ≡ false × result ≡ answered.0)
    ⊎ ((m : Message) × (answered.1 ≡ some m)
        × ((m.message_id ≡ message_id_code MessageId.send_config_result × result ≡ ok)
            ⊎ (m.message_id ≢ message_id_code MessageId.send_config_result
                × result ≡ invalid_state)))

ne_of_== : (m n : ℕ) → (m == n) ≡ false → m ≢ n
ne_of_== m n h e = ground arith

check_result-Concludes :
    (sent : ErrorCode) (answer : Option Message)
    → Answered (sent, answer)
    → (result : ErrorCode) × (check_result sent answer ≡ done result)
      × Concludes (sent, answer) result
unfolding check_result
check_result-Concludes sent answer answered = elim (Bool-cases (is_ok sent)) [
  | inr failure ↦ (sent, rw failure, inl (failure, refl))
  | inl success ↦ elim answered [
    | inl failure ↦ cc
    | inr there ↦
        elim (Bool-cases (message_id_code MessageId.send_config_result == there.0.message_id)) [
          | inl same ↦ (
            ok,
            rw (success, there.1, same),
            inr (
              there.0,
              there.1,
              inl (
                sym (
                    (==_iff (message_id_code MessageId.send_config_result) there.0.message_id).0
                      same),
                refl,
              ),
            ),
          )
          | inr other ↦ (
            invalid_state,
            rw (success, there.1, other),
            inr (
              there.0,
              there.1,
              inr (
                λ e.
                    ne_of_== (message_id_code MessageId.send_config_result) there.0.message_id other
                      (sym e),
                refl,
              ),
            ),
          )
        ]
  ]
]

module _ (os : Os) (sends : SendLaws os) (recvs : RecvLaws os) (bytewise : IsBytewise os recvs)
    (network : NetworkSettings) where
  -- On valid settings, and where a descriptor that fits into an fd_set can be made, the client's
  -- announcement ends without undefined behaviour on every answer of the operating system and of the
  -- proxy: its result is the failure of the exchange, or `ok` for an answer with the id of a result of
  -- a configuration, or `invalid_state` for another answer.
  pub process_configuration-Concludes :
      (general : GeneralSettings) (settings : SensorsSettings) (n : ℕ) (name : Memory)
      (w : os.World)
      → AreSettings general settings n name
      → is_settable (os.socket w).0 ≡ true
      → (message : Message) × (answered : ErrorCode × Option Message) × (fd : ℤ) × (w1 : os.World)
        × (exchange os network message ok new_client_socket w
            ≡ done ((answered, record new_client_socket { socket_fd = some fd }), w1))
        × (result : ErrorCode) × (w' : os.World) × (process_configuration os network general
              settings w
            ≡ done (result, w'))
        × Concludes answered result
  unfolding process_configuration close
  process_configuration-Concludes general settings n name w k open_fd =
      let (m, prepares, same_id, r) = prepare_config_message-Represents general settings n name k in
      let bounded = Represents-bounded m _ r in
      let (answered, fd, w1, exchanges, which) =
        exchange_holds os sends recvs bytewise network m bounded.0 bounded.1 w open_fd in
      let ((t, w2), first) = close_socket-Ends os fd w1 in
      let ((t', w3), second) = close_socket-Ends os minus_one w2 in
      let (result, checks, concludes) = check_result-Concludes answered.0 answered.1 which in
      (
        m,
        answered,
        fd,
        w1,
        exchanges,
        result,
        w3,
        rw (prepares, exchanges, first, checks, second),
        concludes,
      )
