-- ===== src/Socket/Ends.antt =====
-- The calls on a descriptor end whatever the operating system answers.
use shp.Base.{
  ℕ, ℤ, ◌≡◌, Bool, true, false, is_negative, refl, Bool-cases, inl, inr, none, some, Option,
  if◌then◌else◌,
}
use shp.Memory.{Memory}
use shp.ErrorCodes.{ok, invalid_param, system_error, socket_error}
use shp.Os.{Os}
use shp.Os.Ends.{Ends}
use shp.Socket.{
  close_socket, bind_on_server, connect_to_server, set_blocking, htons, failed, is_minus_one,
  set_nonblock, clear_nonblock,
}

module _ (os : Os) where
  pub close_socket-Ends : (fd : ℤ) → Ends (close_socket os fd)
  unfolding close_socket
  close_socket-Ends fd w = elim (Bool-cases (is_negative fd)) [
    | inl n ↦ ((tt, w), rw n)
    | inr n ↦ ((tt, os.close fd w), rw n)
  ]

  pub bind_on_server-Ends : (fd : ℤ) (port : ℕ) → Ends (bind_on_server os fd port)
  unfolding bind_on_server
  bind_on_server-Ends fd port w =
      let (reuse, w1) = os.set_reuse fd w in
      let (bound, w2) = os.bind fd (htons port) w1 in
      elim (Bool-cases (is_negative fd)) [
        | inl n ↦ ((invalid_param, w), rw n)
        | inr n ↦ elim (Bool-cases (is_negative reuse)) [
          | inl r ↦ ((system_error, w1), rw (n, r))
          | inr r ↦ elim (Bool-cases (is_negative bound)) [
            | inl b ↦ ((system_error, w2), rw (n, r, b))
            | inr b ↦
                ((failed (os.listen fd 1 w2).0 system_error, (os.listen fd 1 w2).1), rw (n, r, b))
          ]
        ]
      ]

  pub connect_to_server-Ends :
      (fd : ℤ) (name : Memory) (port : ℕ) → Ends (connect_to_server os fd name port)
  unfolding connect_to_server
  connect_to_server-Ends fd name port w = elim (Bool-cases (is_negative fd)) [
    | inl n ↦ ((invalid_param, w), rw n)
    | inr n ↦ found (os.gethostbyname name w).0 refl n
  ]
    where
      found :
          (host : Option ℕ)
          → (os.gethostbyname name w).0 ≡ host
          → is_negative fd ≡ false
          → (r : _) × (connect_to_server os fd name port w ≡ shp.Base.done r)
      found none e n = ((socket_error, (os.gethostbyname name w).1), rw (n, e))
      found (some address) e n =
          let (res, w') = os.connect fd address (htons port) (os.gethostbyname name w).1 in
          ((failed res system_error, w'), rw (n, e))

  pub set_blocking-Ends : (fd : ℤ) (is_blocking : Bool) → Ends (set_blocking os fd is_blocking)
  unfolding set_blocking
  set_blocking-Ends fd is_blocking w =
      let (flags, w1) = os.get_flags fd w in
      let new_flags = if is_blocking then set_nonblock flags else clear_nonblock flags in
      let (res, w2) = os.set_flags fd new_flags w1 in
      elim (Bool-cases (is_negative fd)) [
        | inl n ↦ ((invalid_param, w), rw n)
        | inr n ↦ elim (Bool-cases (is_minus_one flags)) [
          | inl f ↦ ((system_error, w1), rw (n, f))
          | inr f ↦ ((if is_minus_one res then system_error else ok, w2), rw (n, f))
        ]
      ]
