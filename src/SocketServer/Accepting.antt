-- ===== src/SocketServer/Accepting.antt =====
-- What `server_socket_class` holds after its calls, whatever the operating system answers.
use shp.Base.{ℕ, ◌≡◌, refl, ℤ, is_negative, minus_one, Bool-cases, true, false, inl, inr, done, ◌⊎◌}
use shp.ErrorCodes.{ErrorCode, is_ok, system_error, invalid_state}
use shp.Os.{Os}
use shp.Socket.Ends.{close_socket-Ends, bind_on_server-Ends, set_blocking-Ends}
use shp.Socket.{create_socket, accept, is_settable}
use shp.SocketServer.{ServerSocket, bind, accept_client}

-- An open descriptor if the result is `ok`, and otherwise the mark of a closed one.
abbrev pub Holds : ErrorCode → ℤ → Type 0
Holds result fd =
    (is_ok result ≡ true × is_negative fd ≡ false) ⊎ (is_ok result ≡ false × fd ≡ minus_one)

-- The listening descriptor is the old one, and the client's is open if the result is `ok`.
abbrev pub HoldsClient : ErrorCode → ServerSocket → ServerSocket → Type 0
HoldsClient result s s' =
    (s'.socket_fd ≡ s.socket_fd)
    × ((is_ok result ≡ true × is_negative s'.accept_fd ≡ false) ⊎ (is_ok result ≡ false))

-- No descriptor that `accept` makes is too large for an fd_set.
abbrev pub AcceptsSettable : Os → Type 0
AcceptsSettable os =
    (fd : ℤ) (w : os.World)
    → (is_negative (os.accept fd w).0 ≡ true) ⊎ (is_settable (os.accept fd w).0 ≡ true)

module _ (os : Os) where
  open os use {World}

  -- Binding ends on every answer of the operating system. If its result is `ok`, the object holds an
  -- open descriptor, and otherwise the mark of a closed one.
  pub bind-Holds :
      (port : ℕ) (s : ServerSocket) (w : World)
      → (result : ErrorCode) × (s' : ServerSocket) × (w' : World) × (bind os port s w
          ≡ done ((result, s'), w'))
        × Holds result s'.socket_fd
  unfolding bind create_socket
  bind-Holds port s w = elim (Bool-cases (is_negative (os.socket w).0)) [
    | inl bad ↦
        let ((t, w'), closes) = close_socket-Ends os s.socket_fd (os.socket w).1 in
        (system_error, record s { socket_fd = minus_one }, w', rw (bad, closes), inr (refl, refl))
    | inr good ↦
        let ((result, w1), binds) = bind_on_server-Ends os (os.socket w).0 port (os.socket w).1 in
        elim (Bool-cases (is_ok result)) [
          | inl success ↦ (
            result,
            record s { socket_fd = (os.socket w).0 },
            w1,
            rw (good, binds, success),
            inl (success, good),
          )
          | inr failure ↦
              let ((t, w'), closes) = close_socket-Ends os (os.socket w).0 w1 in
              (
                result,
                record s { socket_fd = minus_one },
                w',
                rw (good, binds, failure, closes),
                inr (failure, refl),
              )
        ]
  ]

  -- Accepting a client ends on every answer of the operating system, and the listening descriptor
  -- stays. If the result is `ok`, the object holds the open descriptor of a client.
  pub accept_client-HoldsClient :
      (s : ServerSocket) (w : World)
      → (result : ErrorCode) × (s' : ServerSocket) × (w' : World) × (accept_client os s w
          ≡ done ((result, s'), w'))
        × HoldsClient result s s'
  unfolding accept_client accept
  accept_client-HoldsClient s w = elim (Bool-cases (is_negative s.socket_fd)) [
    | inl bad ↦ (invalid_state, s, w, rw bad, (refl, inr refl))
    | inr good ↦
        let ((ready, w1), readies) = set_blocking-Ends os s.socket_fd false w in
        elim (Bool-cases (is_ok ready)) [
          | inr failure ↦ (ready, s, w1, rw (good, readies, failure), (refl, inr failure))
          | inl going ↦
              let (fd, w2) = os.accept s.socket_fd w1 in
              elim (Bool-cases (is_negative fd)) [
                | inl none_left ↦
                    (system_error, s, w2, rw (good, readies, going, none_left), (refl, inr refl))
                | inr new ↦
                    let ((result, w3), ends) = set_blocking-Ends os s.socket_fd true w2 in
                    (
                      result,
                      record s { accept_fd = fd },
                      w3,
                      rw (good, readies, going, new, ends),
                      (
                        refl,
                        elim (Bool-cases (is_ok result)) [ inl y ↦ inl (y, new) | inr x ↦ inr x ],
                      ),
                    )
              ]
        ]
  ]

  -- Where `accept` makes no descriptor that does not fit into an fd_set, neither does a client's
  -- acceptance.
  pub accept_client_settable :
      AcceptsSettable os
      → (s : ServerSocket) (w : World)
      → (result : ErrorCode) × (s' : ServerSocket) × (w' : World) × (accept_client os s w
          ≡ done ((result, s'), w'))
        × ((is_ok result ≡ true × is_settable s'.accept_fd ≡ true) ⊎ (is_ok result ≡ false))
  unfolding accept_client accept
  accept_client_settable small s w = elim (Bool-cases (is_negative s.socket_fd)) [
    | inl bad ↦ (invalid_state, s, w, rw bad, inr refl)
    | inr good ↦
        let ((ready, w1), readies) = set_blocking-Ends os s.socket_fd false w in
        elim (Bool-cases (is_ok ready)) [
          | inr failure ↦ (ready, s, w1, rw (good, readies, failure), inr failure)
          | inl going ↦
              let (fd, w2) = os.accept s.socket_fd w1 in
              elim (Bool-cases (is_negative fd)) [
                | inl none_left ↦
                    (system_error, s, w2, rw (good, readies, going, none_left), inr refl)
                | inr new ↦
                    let ((result, w3), ends) = set_blocking-Ends os s.socket_fd true w2 in
                    let open_fd : is_settable fd ≡ true = elim (small s.socket_fd w1) [
                      | inl bad ↦ absurd (clash fd bad new)
                      | inr fits ↦ fits
                    ] in
                    (
                      result,
                      record s { accept_fd = fd },
                      w3,
                      rw (good, readies, going, new, ends),
                      elim (Bool-cases (is_ok result)) [ inl y ↦ inl (y, open_fd) | inr x ↦ inr x ],
                    )
              ]
        ]
  ]
    where
      clash : (fd : ℤ) → is_negative fd ≡ true → is_negative fd ≡ false → ⊥
      clash fd bad good = cc
