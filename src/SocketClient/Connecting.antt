-- ===== src/SocketClient/Connecting.antt =====
-- What `client_socket_class` holds after `connect`, whatever the operating system answers.
use shp.Base.{
  ℕ, zero, suc, ◌≡◌, refl, ap, ◌∙◌, ◌⊎◌, ℤ, is_negative, minus_one, Bool-cases, true, false, inl,
  inr, done, fault, some, ◌==◌,
}
use shp.Memory.{Memory}
use shp.ErrorCodes.{ErrorCode, is_ok, socket_error}
use shp.Os.{Os}
use shp.Os.Ends.{Ends}
use shp.Socket.{create_socket}
use shp.Socket.Ends.{close_socket-Ends, connect_to_server-Ends, set_blocking-Ends}
use shp.SocketServer.Accepting.{Holds}
use shp.SocketClient.{
  ClientSocket, new_client_socket, connect, connect_loop, connect_created, close,
}

module _ (os : Os) where
  open os use {World}

  connect_loop-Ends :
      (left : ℕ) (fd : ℤ) (name : Memory) (port pause : ℕ)
      → Ends (connect_loop os left fd name port pause)
  unfolding connect_loop
  connect_loop-Ends zero fd name port pause w = ((socket_error, w), refl)
  connect_loop-Ends (suc left) fd name port pause w =
      let ((result, w1), tries) = connect_to_server-Ends os fd name port w in
      elim (Bool-cases (is_ok result)) [
        | inl success ↦ ((result, w1), rw (tries, success))
        | inr failure ↦ elim (Bool-cases (left == 0)) [
          | inl last ↦ ((socket_error, w1), rw (tries, failure, last))
          | inr more ↦
              let (r, again) = connect_loop-Ends left fd name port pause (os.sleep pause w1) in
              (r, rw (tries, failure, more) again)
        ]
      ]

  -- The result of a connection attempt on an open descriptor.
  connect_created-Ends :
      (name : Memory) (port : ℕ) (s : ClientSocket) (fd : ℤ)
      → s.socket_fd ≡ some fd
      → Ends (connect_created os name port s)
  unfolding connect_created
  connect_created-Ends name port s fd e w =
      let ((result, w1), loops) =
        connect_loop-Ends s.try_count_max fd name port s.connect_retry_sleep w in
      elim (Bool-cases (is_ok result)) [
        | inl success ↦
            let (r, sets) = set_blocking-Ends os fd true w1 in (r, rw (e, loops, success) sets)
        | inr failure ↦ ((result, w1), rw (e, loops, failure))
      ]

  -- The descriptor that is held is the one made, or the mark of a closed one.
  pub connect_holds :
      (name : Memory) (port : ℕ) (s : ClientSocket) (w : World)
      → is_negative (os.socket w).0 ≡ false
      → (result : ErrorCode) × (fd : ℤ) × (w' : World) × (connect os name port s w
          ≡ done ((result, record s { socket_fd = some fd }), w'))
        × ((is_ok result ≡ true × fd ≡ (os.socket w).0) ⊎ (is_ok result ≡ false × fd ≡ minus_one))
  unfolding connect create_socket close
  connect_holds name port s w good =
      let ((result, w1), runs) =
        connect_created-Ends name port (record s { socket_fd = some (os.socket w).0 })
          (os.socket w).0 refl (os.socket w).1 in
      elim (Bool-cases (is_ok result)) [
        | inl success ↦ (result, (os.socket w).0, w1, rw (good, runs, success), inl (success, refl))
        | inr failure ↦
            let ((t, w'), closes) = close_socket-Ends os (os.socket w).0 w1 in
            (result, minus_one, w', rw (good, runs, failure, closes), inr (failure, refl))
      ]

  -- Where a descriptor can be made, connecting ends on every answer of the operating system, also for
  -- a new object. If its result is `ok`, the object holds an open descriptor, and otherwise the mark
  -- of a closed one.
  pub connect-Holds :
      (name : Memory) (port : ℕ) (s : ClientSocket) (w : World)
      → is_negative (os.socket w).0 ≡ false
      → (result : ErrorCode) × (fd : ℤ) × (w' : World) × (connect os name port s w
          ≡ done ((result, record s { socket_fd = some fd }), w'))
        × Holds result fd
  connect-Holds name port s w good =
      let (result, fd, w', runs, which) = connect_holds name port s w good in
      (
        result,
        fd,
        w',
        runs,
        elim which [
          | inl held ↦ inl (held.0, ap is_negative held.1 ∙ good)
          | inr closed ↦ inr closed
        ],
      )

  -- Where none can be made, connecting a new object closes a descriptor that was never stored, which
  -- is undefined.
  pub connect_uninitialised :
      (name : Memory) (port : ℕ) (w : World)
      → is_negative (os.socket w).0 ≡ true
      → connect os name port new_client_socket w ≡ fault
  unfolding connect create_socket close new_client_socket
  connect_uninitialised name port w bad = rw bad
