-- ===== src/Smif/I2c.antt =====
-- src/smif_service.cpp: the I2C proxy. The bus driver is a parameter: whether a bus device opens,
-- and what a transfer does, in some state of the hardware.
pub mod Bounds
pub mod Transfer
use ocp_canopy_open_bmc.Common.{
  ℕ, ◌+◌, ◌-◌, ◌/◌, ◌%◌, Bool, not, ◌&&◌, ◌||◌, ltb, ◌==◌, if◌then◌else◌, Option, none, some, List,
  [], ◌∷◌, ◌++◌, ℤ, pos, Bytes, length, get_or, take, replicate, le_bytes, load_le, read_at,
  write_at, fill_n,
}
use ocp_canopy_open_bmc.Packet.{Header, init_response, write_payload}
use ocp_canopy_open_bmc.Packet.Frame.{Handled, no_response}

abbrev pub i2c_resp_size : ℕ
i2c_resp_size = 8 + 49

abbrev pub i2c_min_payload : ℕ
i2c_min_payload = 17

abbrev pub i2c_off_data : ℕ
i2c_off_data = 17

abbrev pub i2c_general_error : ℕ
i2c_general_error = 101

abbrev pub i2c_bus_timeout : ℕ
i2c_bus_timeout = 105

abbrev pub i2c_segment_not_found : ℕ
i2c_segment_not_found = 108

abbrev pub i2c_address_nack : ℕ
i2c_address_nack = 116

-- `i2cErrorFromErrno`; ENXIO is 6 and ETIMEDOUT is 110 on Linux.
unfoldable pub i2c_error_from_errno : ℕ → ℕ
i2c_error_from_errno err =
    if err == 6 then i2c_address_nack else if err == 110 then i2c_bus_timeout else i2c_general_error

-- `struct i2c_msg`: a write of bytes to an address, or a read of a number of bytes.
pub data I2cMsg : Type 0 where
  write_msg : ℕ → Bytes → I2cMsg
  read_msg : ℕ → ℕ → I2cMsg

-- How an `I2C_RDWR` transfer ends: with an errno, or with the bytes read.
pub data TransferResult : Type 0 where
  failed : ℕ → TransferResult
  transferred : Bytes → TransferResult

-- The bus driver of the kernel.
pub record I2cDriver (World : Type 0) : Type 0 where
  pub opens : World → ℤ → Bool
  pub transfer : World → ℤ → List I2cMsg → TransferResult × World

-- `segmentToBus_`, as an association list.
abbrev pub SegmentBusMap : Type 0
SegmentBusMap = List (ℕ × ℤ)

unfoldable pub find_bus : ℕ → SegmentBusMap → Option ℤ
find_bus segment [] = none
find_bus segment ((s, bus) ∷ rest) = if s == segment then some bus else find_bus segment rest

-- The writes of a handler into the response payload: an offset and bytes, in order.
abbrev pub Writes : Type 0
Writes = List (ℕ × Bytes)

unfoldable pub apply_writes : Writes → Bytes → Bytes
apply_writes [] response = response
apply_writes ((off, src) ∷ ws) response = apply_writes ws (write_payload off src response)

abbrev pub write_error : ℕ → Writes
write_error code = (0, le_bytes 4 code) ∷ []

-- The bytes that the driver leaves in `readBuf`, which is zeroed and gets `read_len` at most.
abbrev pub read_buf : ℕ → Bytes → Bytes
read_buf read_len received = write_at 0 (take read_len received) (replicate 32 0)

-- What `memcpy` copies out of a buffer: that many bytes, also where the buffer has fewer. What it
-- finds behind the buffer is not known, and stands as zeros.
abbrev pub copied : ℕ → Bytes → Bytes
copied n buf = take n buf ++ replicate (n - length buf) 0

-- The writes behind a transfer.
unfoldable pub result_writes : ℕ → TransferResult → Writes
result_writes read_len (failed errno) = write_error (i2c_error_from_errno errno)
result_writes read_len (transferred received) =
    (16, read_len ∷ [])
    ∷ (if ltb 0 read_len then (17, copied read_len (read_buf read_len received)) ∷ [] else [])

-- The messages of a transfer.
unfoldable pub messages : ℕ → ℕ → ℕ → Bytes → List I2cMsg
messages i2c_addr write_len read_len request =
    (if ltb 0 write_len
      then write_msg i2c_addr (read_at i2c_off_data write_len request) ∷ []
      else [])
    ++ (if ltb 0 read_len then read_msg i2c_addr read_len ∷ [] else [])

module _ {World : Type 0} (driver : I2cDriver World) (segments : SegmentBusMap) where
  -- The part behind `find` in the segment map.
  unfoldable pub bus_writes : Option ℤ → ℕ → ℕ → ℕ → Bytes → World → Writes × World
  bus_writes none address write_len read_len request w = (write_error i2c_segment_not_found, w)
  bus_writes (some bus) address write_len read_len request w =
      let i2c_addr = address / 2 % 256 in
      let (result, w') = driver.transfer w bus (messages i2c_addr write_len read_len request) in
      if not (driver.opens w bus)
      then (write_error i2c_general_error, w)
      else if ltb 0 write_len && ltb (length request - i2c_off_data) write_len
      then (write_error i2c_general_error, w)
      else (result_writes read_len result, w')

  -- All that `handleI2cProxy` writes behind the zeroed response and its header.
  unfoldable pub i2c_writes : Bytes → World → Writes × World
  i2c_writes request w =
      let address = load_le 12 2 request in
      let segment = get_or request 14 0 in
      let write_len = get_or request 15 0 in
      let read_len = get_or request 16 0 in
      let echo = (12, le_bytes 2 address) ∷ (14, segment ∷ []) ∷ [] in
      let (later, w') =
        bus_writes (find_bus segment segments) address write_len read_len request w in
      if ltb (length request) i2c_min_payload
      then (write_error i2c_general_error, w)
      else if write_len == 0 && read_len == 0
      then (echo, w)
      else if ltb 32 write_len || ltb 32 read_len
      then (echo ++ write_error i2c_general_error, w)
      else (echo ++ later, w')

  -- `handleI2cProxy`
  unfoldable pub handle_i2c_proxy : Header → Bytes → Bytes → World → Handled × World
  handle_i2c_proxy hdr request response w =
      let started = init_response (fill_n i2c_resp_size response) hdr i2c_resp_size in
      let (ws, w') = i2c_writes request w in
      if ltb (length response) i2c_resp_size
      then (no_response response, w)
      else ((pos i2c_resp_size, apply_writes ws started), w')
