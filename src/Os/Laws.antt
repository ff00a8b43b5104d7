-- ===== src/Os/Laws.antt =====
-- What POSIX documents of the calls: which bytes a connection carries.
use shp.Base.{
  ℕ, suc, ◌≤◌, ◌<◌, ◌∷◌, ◌≡◌, ℤ, pos, List, ◌++◌, some, none, length, take, is_negative, true,
}
use shp.Memory.{Memory}
use shp.Memory.Bytes.{IsBytes}
use shp.Os.{Os}

-- A positive result of `send` counts the bytes taken, from the front of those offered; otherwise
-- none was taken. Nothing else writes to the connection.
pub record SendLaws (os : Os) : Type 1 where
  pub outgoing : os.World → ℤ → Memory
  pub select_write-outgoing :
      (fd : ℤ) (limit : ℕ) (w : os.World)
      → outgoing (os.select_write fd limit w).1 fd ≡ outgoing w fd
  pub send_some :
      (fd : ℤ) (bytes : Memory) (w : os.World) (k : ℕ)
      → (os.send fd bytes w).0 ≡ pos (suc k)
      → (suc k ≤ length bytes)
        × (outgoing (os.send fd bytes w).1 fd ≡ outgoing w fd ++ take (suc k) bytes)
  pub send_zero :
      (fd : ℤ) (bytes : Memory) (w : os.World)
      → (os.send fd bytes w).0 ≡ pos 0
      → outgoing (os.send fd bytes w).1 fd ≡ outgoing w fd
  pub send_error :
      (fd : ℤ) (bytes : Memory) (w : os.World)
      → is_negative (os.send fd bytes w).0 ≡ true
      → outgoing (os.send fd bytes w).1 fd ≡ outgoing w fd

-- `recv` takes no more bytes than asked for, from the front of those on the way.
pub record RecvLaws (os : Os) : Type 1 where
  pub incoming : os.World → ℤ → List ℕ
  pub select_read-incoming :
      (fd : ℤ) (limit : ℕ) (w : os.World)
      → incoming (os.select_read fd limit w).1 fd ≡ incoming w fd
  pub recv_some :
      (fd : ℤ) (n : ℕ) (w : os.World) (bytes : List ℕ)
      → (os.recv fd n w).0 ≡ some bytes
      → (length bytes ≤ n) × (incoming w fd ≡ bytes ++ incoming (os.recv fd n w).1 fd)
  pub recv_none :
      (fd : ℤ) (n : ℕ) (w : os.World)
      → (os.recv fd n w).0 ≡ none
      → incoming (os.recv fd n w).1 fd ≡ incoming w fd

-- A connection on which what was sent has arrived: `select` and `recv` do not wait for it.
pub record IsPrompt (os : Os) (laws : RecvLaws os) : Type 0 where
  pub select_ready :
      (fd : ℤ) (limit : ℕ) (w : os.World)
      → 0 < length (laws.incoming w fd)
      → (os.select_read fd limit w).0.0 ≡ pos 1
  pub recv_ready :
      (fd : ℤ) (n : ℕ) (w : os.World)
      → 0 < n
      → 0 < length (laws.incoming w fd)
      → (b : ℕ) × (bs : List ℕ) × ((os.recv fd n w).0 ≡ some (b ∷ bs))

-- What comes off a connection are bytes.
pub record IsBytewise (os : Os) (laws : RecvLaws os) : Type 0 where
  pub incoming_bytes : (fd : ℤ) (w : os.World) → IsBytes (laws.incoming w fd)
