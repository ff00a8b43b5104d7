-- ===== src/Message/Wire.antt =====
-- The packed header on the wire.
use shp.Base.{◌<◌, ◌≡◌, refl, some, arith, length}
use shp.Memory.{IsU32, cells}
use shp.Message.{Header, header_bytes, header_of_bytes, header_size}

pub record IsHeader (h : Header) : Type 0 where
  pub version_byte : h.message_version < 256
  pub id_word : IsU32 h.message_id
  pub size_word : IsU32 h.payload_size
  pub result_word : IsU32 h.message_result

pub length-header_bytes : (h : Header) → length (header_bytes h) ≡ header_size
unfolding header_bytes
length-header_bytes h = refl

-- The receiver reads the header that the sender's bytes stand for.
pub header_of_bytes-header_bytes :
    (h : Header) → IsHeader h → header_of_bytes (cells (header_bytes h)) ≡ some h
unfolding header_of_bytes header_bytes
header_of_bytes-header_bytes h v = ground (arith)

pub length-header_cells : (h : Header) → length (cells (header_bytes h)) ≡ header_size
unfolding header_bytes
length-header_cells h = refl
