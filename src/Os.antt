-- ===== src/Os.antt =====
-- The operating system that src/socket.cpp calls: its state is a type that the model does not
-- look into, and each system call is an operation on it, with the result that the code inspects.
pub mod Actions
pub mod Ends
pub mod Laws
pub mod Line
use shp.Base.{ℕ, ℤ, Option, List}
use shp.Memory.{Memory}

pub record Os : Type 1 where
  pub World : Type 0
  -- `socket (AF_INET, SOCK_STREAM, IPPROTO_IP)`
  pub socket : World → ℤ × World
  -- `gethostbyname`: the address, or none for a null pointer
  pub gethostbyname : Memory → World → Option ℕ × World
  -- `connect` to an address and a port
  pub connect : ℤ → ℕ → ℕ → World → ℤ × World
  -- `setsockopt` of `SO_REUSEADDR`
  pub set_reuse : ℤ → World → ℤ × World
  -- `bind` to a port of `INADDR_ANY`, `listen` with a backlog, `accept`
  pub bind : ℤ → ℕ → World → ℤ × World
  pub listen : ℤ → ℕ → World → ℤ × World
  pub accept : ℤ → World → ℤ × World
  -- `fcntl` with `F_GETFL`, and with `F_SETFL`
  pub get_flags : ℤ → World → ℤ × World
  pub set_flags : ℤ → ℤ → World → ℤ × World
  -- `select` on one descriptor with a time limit in microseconds: the result, and what Linux leaves
  -- of the limit
  pub select_write : ℤ → ℕ → World → (ℤ × ℕ) × World
  pub select_read : ℤ → ℕ → World → (ℤ × ℕ) × World
  -- `send` of some bytes: how many were taken
  pub send : ℤ → Memory → World → ℤ × World
  -- `recv` of up to some bytes: those that came, or none for a negative result
  pub recv : ℤ → ℕ → World → Option (List ℕ) × World
  pub close : ℤ → World → World
  pub sleep : ℕ → World → World
