-- ===== src/Socket.antt =====
-- src/socket.hpp and src/socket.cpp: the functions on a socket's descriptor. Log lines are left out.
pub mod Send
mod Tests
pub mod Ends
pub mod Recv
use Prim.Native.Nat.{bit_and, bit_or}
use shp.Base.{
  ℕ, zero, suc, ◌+◌, ◌-◌, ◌*◌, ◌%◌, ◌^◌, ℤ, pos, negsuc, is_negative, minus_one, Bool, true, false,
  Option, none, some, List, [], ◌∷◌, ◌++◌, ltb, leb, ◌==◌, ◌&&◌, if◌then◌else◌, length, drop, Exec,
  done, fault, out_of_fuel, or_fault,
}
use shp.Memory.{Memory, u32_mod, read_at}
use shp.ErrorCodes.{
  ErrorCode, is_ok, ok, system_error, invalid_param, socket_error, transport_error,
}
use shp.Os.{Os}
use shp.Os.Actions.{Io, pure, ◌>>=◌, ◌>>◌, call, lift, when_ok}

-- `result < 0`
abbrev pub failed : ℤ → ErrorCode → ErrorCode
failed result error = if is_negative result then error else ok

-- `htons` keeps the low sixteen bits.
abbrev pub htons : ℕ → ℕ
htons port = port % 2 ^ 16

-- `O_NONBLOCK` of Linux on x86 and ARM
abbrev pub o_nonblock : ℕ
o_nonblock = 0x800

-- `flags | O_NONBLOCK` and `flags & ~O_NONBLOCK`; a negative number n stands for ~(-n - 1).
unfoldable pub set_nonblock : ℤ → ℤ
set_nonblock (pos n) = pos (bit_or n o_nonblock)
set_nonblock (negsuc n) = negsuc (n - bit_and n o_nonblock)

unfoldable pub clear_nonblock : ℤ → ℤ
clear_nonblock (pos n) = pos (n - bit_and n o_nonblock)
clear_nonblock (negsuc n) = negsuc (bit_or n o_nonblock)

-- The test for the failure of `fcntl`.
abbrev pub is_minus_one : ℤ → Bool
is_minus_one (pos n) = false
is_minus_one (negsuc zero) = true
is_minus_one (negsuc (suc n)) = false

-- `FD_SET` is undefined for a descriptor outside 0 to 1023.
abbrev pub is_settable : ℤ → Bool
is_settable (pos n) = ltb n 1024
is_settable (negsuc n) = false

abbrev pub fd_set : ℤ → Exec (Unit {0})
fd_set fd = if is_settable fd then done tt else fault

-- `tv.tv_usec = timeout * 1000`
abbrev pub limit_of : ℕ → ℕ
limit_of timeout = timeout * 1000 % u32_mod

module _ (os : Os) where
  open os use {World}

  -- The descriptor is written only if the result is `ok`.
  unfoldable pub create_socket : Io World (ErrorCode × Option ℤ)
  create_socket = do
    fd ← call (os.socket)
    pure (if is_negative fd then (system_error, none) else (ok, some fd))

  unfoldable pub connect_to_server : ℤ → Memory → ℕ → Io World ErrorCode
  connect_to_server fd name port = if is_negative fd then pure invalid_param else do
    host ← call (os.gethostbyname name)
    elim host [
      | none ↦ pure socket_error
      | some address ↦ do
        res ← call (os.connect fd address (htons port))
        pure (failed res system_error)
    ]

  unfoldable pub bind_on_server : ℤ → ℕ → Io World ErrorCode
  bind_on_server fd port = if is_negative fd then pure invalid_param else do
    reuse ← call (os.set_reuse fd)
    bound ←
        when_ok (failed reuse system_error)
          do res ← call (os.bind fd (htons port)); pure (failed res system_error)
    when_ok bound do res ← call (os.listen fd 1); pure (failed res system_error)

  unfoldable pub set_blocking : ℤ → Bool → Io World ErrorCode
  unfolding set_nonblock clear_nonblock
  set_blocking fd is_blocking = if is_negative fd then pure invalid_param else do
    flags ← call (os.get_flags fd)
    if is_minus_one flags then pure system_error else do
      res ←
          call (os.set_flags fd (if is_blocking then set_nonblock flags else clear_nonblock flags))
      pure (if is_minus_one res then system_error else ok)

  unfoldable pub accept : ℤ → Io World (ErrorCode × Option ℤ)
  accept fd = do
    client ← call (os.accept fd)
    pure (if is_negative client then (system_error, none) else (ok, some client))

  -- What one pass of the loop of `send_data` leaves: the result, and how many bytes were sent.
  unfoldable pub send_once : ℤ → Memory → ℕ → Io World (ErrorCode × ℕ)
  unfolding read_at
  send_once fd buffer total = do
    bytes ← lift (or_fault (read_at buffer 0 total))
    sent ← call (os.send fd bytes)
    pure (elim sent [
      | negsuc n ↦ (transport_error, 0)
      | pos zero ↦ (transport_error, 0)
      | pos (suc k) ↦ (ok, suc k)
    ])

  -- The body of the loop, with what is left of the time limit.
  unfoldable pub send_round : ℤ → Memory → ℕ → ℕ → Io World ((ErrorCode × ℕ) × ℕ)
  send_round fd buffer total limit = do
    (res, left) ← call (os.select_write fd limit)
    r ← elim res [
      | pos (suc n) ↦ send_once fd buffer total
      | pos zero ↦ pure (transport_error, 0)
      | negsuc n ↦ pure (system_error, 0)
    ]
    pure (r, left)

  unfoldable pub send_loop : ℕ → ℤ → Memory → ℕ → ℕ → Io World ErrorCode
  send_loop zero fd buffer total limit = λ w. out_of_fuel
  send_loop (suc fuel) fd buffer total limit = do
    ((result, sent), left) ← send_round fd buffer total limit
    let total' = (total + u32_mod - sent) % u32_mod
    let rest = send_loop fuel fd (drop sent buffer) total' left
    if is_ok result && ltb 0 total' then rest else pure result

  -- Every round that does not end the loop sends a byte at least, so that the fuel lasts.
  unfoldable pub send_data : ℤ → Memory → ℕ → ℕ → Io World ErrorCode
  send_data fd buffer total timeout = do
    lift (fd_set fd)
    send_loop (suc total) fd buffer total (limit_of timeout)

  unfoldable pub recv_once : ℤ → ℕ → Io World (ErrorCode × List ℕ)
  recv_once fd wanted = do
    received ← call (os.recv fd wanted)
    pure (elim received [
      | none ↦ (transport_error, [])
      | some [] ↦ (transport_error, [])
      | some (b ∷ bytes) ↦ (ok, b ∷ bytes)
    ])

  unfoldable pub recv_round : ℤ → ℕ → ℕ → Io World ((ErrorCode × List ℕ) × ℕ)
  recv_round fd wanted limit = do
    (res, left) ← call (os.select_read fd limit)
    r ← elim res [
      | pos (suc n) ↦ recv_once fd wanted
      | pos zero ↦ pure (transport_error, [])
      | negsuc n ↦ pure (system_error, [])
    ]
    pure (r, left)

  -- The bytes received so far are those at the start of the buffer.
  unfoldable pub recv_loop : ℕ → ℤ → ℕ → List ℕ → ℕ → Io World (ErrorCode × List ℕ)
  recv_loop zero fd to_receive received limit = λ w. out_of_fuel
  recv_loop (suc fuel) fd to_receive received limit = do
    let wanted = (to_receive + u32_mod - length received) % u32_mod
    ((result, bytes), left) ← recv_round fd wanted limit
    let received' = received ++ bytes
    let rest = recv_loop fuel fd to_receive received' left
    if is_ok result && ltb (length received') to_receive then rest else pure (result, received')

  unfoldable pub recv_data : ℤ → ℕ → ℕ → Io World (ErrorCode × List ℕ)
  recv_data fd to_receive timeout = do
    lift (fd_set fd)
    recv_loop (suc to_receive) fd to_receive [] (limit_of timeout)

  unfoldable pub close_socket : ℤ → Io World (Unit {0})
  close_socket fd = if is_negative fd then pure tt else (λ w. done (tt, os.close fd w))
