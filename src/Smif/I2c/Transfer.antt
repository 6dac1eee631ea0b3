-- ===== src/Smif/I2c/Transfer.antt =====
-- A request to the I2C proxy that leads to a transfer, and its answer.
use ocp_canopy_open_bmc.Common.{
  ℕ, zero, suc, ◌+◌, ◌-◌, ◌/◌, ◌%◌, ◌≤◌, ◌<◌, ◌≡◌, refl, ap, sym, ◌∙◌, true, false, ◌&&◌, ◌||◌, ltb,
  le→ltb, lt→ltb, ◌==◌, if◌then◌else◌, some, List, [], ◌∷◌, ◌++◌, arith, ℤ, Bytes, length,
  length-append, length-take, length-write_at, append-nil, take, take-all, drop, drop-append,
  drop-drop, replicate, get_or, get_or-behind, le_bytes, load_le, load_le-append, read_at, write_at,
}
use ocp_canopy_open_bmc.Smif.I2c.{
  I2cDriver, I2cMsg, write_msg, read_msg, TransferResult, failed, transferred, SegmentBusMap,
  find_bus, Writes, read_buf, copied, result_writes, i2c_error_from_errno, messages, bus_writes,
  i2c_writes,
}
use ocp_canopy_open_bmc.Smif.I2c.Bounds.{payload_after}

-- The payload of a request: bytes that the proxy does not read, the address, the segment, the
-- numbers of bytes to write and to read, the bytes to write.
abbrev pub i2c_request : Bytes → ℕ → ℕ → ℕ → Bytes → Bytes
i2c_request unused address segment read_len written =
    unused ++ (le_bytes 2 address ++ (segment ∷ length written ∷ read_len ∷ written))

-- The messages that such a request asks for.
abbrev pub asked_messages : ℕ → ℕ → Bytes → List I2cMsg
asked_messages address read_len written =
    let i2c_addr = address / 2 % 256 in
    (if ltb 0 (length written) then write_msg i2c_addr written ∷ [] else [])
    ++ (if ltb 0 read_len then read_msg i2c_addr read_len ∷ [] else [])

-- The bytes that were read, at most as many as were asked for, in a field of 32 bytes.
abbrev pub data_field : ℕ → Bytes → Bytes
data_field read_len received =
    take read_len received ++ replicate (32 - length (take read_len received)) 0

-- The payload of the answer: the error code, 8 zeros, address and segment as they were, a zero, the
-- number of bytes read, the field of data.
abbrev pub answer_body : ℕ → ℕ → ℕ → TransferResult → Bytes
answer_body address segment read_len (failed errno) =
    le_bytes 4 (i2c_error_from_errno errno)
    ++ (replicate 8 0 ++ (le_bytes 2 address ++ (segment ∷ 0 ∷ 0 ∷ replicate 32 0)))
answer_body address segment read_len (transferred received) =
    le_bytes 4 0
    ++ (replicate 8 0
        ++ (le_bytes 2 address ++ (segment ∷ 0 ∷ read_len ∷ data_field read_len received)))

abbrev pub echo : ℕ → ℕ → Writes
echo address segment = (12, le_bytes 2 address) ∷ (14, segment ∷ []) ∷ []

-- Bytes in a field of zeros, cut and written again.
field_again :
    (t : Bytes) (n k m : ℕ)
    → length t ≤ n
    → n ≤ k
    → k ≡ length t + m
    → write_at 0 (take n (t ++ replicate m 0)) (replicate k 0) ≡ t ++ replicate m 0
field_again [] zero k m small fits e = ap (λ j. replicate j 0) {x = k} {y = m} (omega arith)
field_again [] (suc n) zero m small fits e = absurd (omega arith)
field_again [] (suc n) (suc k) zero small fits e = absurd (omega arith)
field_again [] (suc n) (suc k) (suc m) small fits e =
    ap (◌∷◌ 0) (field_again [] n k m (omega arith) (omega arith) (omega arith))
field_again (b ∷ t) zero k m small fits e = absurd (omega arith)
field_again (b ∷ t) (suc n) zero m small fits e = absurd (omega arith)
field_again (b ∷ t) (suc n) (suc k) m small fits e =
    ap (◌∷◌ b) (field_again t n k m (omega arith) (omega arith) (omega arith))

field_once :
    (t : Bytes) (k m : ℕ) → k ≡ length t + m → write_at 0 t (replicate k 0) ≡ t ++ replicate m 0
field_once [] k m e = ap (λ j. replicate j 0) {x = k} {y = m} (omega arith)
field_once (b ∷ t) zero m e = absurd (omega arith)
field_once (b ∷ t) (suc k) m e = ap (◌∷◌ b) (field_once t k m (omega arith))

-- What the proxy copies from its buffer into the zeros of the answer.
copied-data_field :
    (n : ℕ) (received : Bytes)
    → n ≤ 32
    → write_at 0 (copied n (read_buf n received)) (replicate 32 0) ≡ data_field n received
copied-data_field n received small =
    let t = take n received in
    let size = length-take n received in
    let full = length-write_at 0 t (replicate 32 0) in
    let none_behind : n - length (read_buf n received) ≡ 0 = omega (arith, full) in
    ap (λ k. write_at 0 (take n (read_buf n received) ++ replicate k 0) (replicate 32 0))
      none_behind
    ∙ ap (λ bs. write_at 0 bs (replicate 32 0)) (append-nil _)
    ∙ ap (λ bs. write_at 0 (take n bs) (replicate 32 0))
        (field_once t 32 (32 - length t) (omega (arith, size)))
    ∙ field_again t n 32 (32 - length t) (omega (arith, size)) small (omega (arith, size))

-- The writes behind a transfer, on the zeroed answer.
pub payload_after-answer_body :
    (address segment read_len : ℕ) (result : TransferResult)
    → read_len ≤ 32
    → payload_after (echo address segment ++ result_writes read_len result) (replicate 49 0)
      ≡ answer_body address segment read_len result
unfolding result_writes
payload_after-answer_body address segment read_len (failed errno) small = refl
payload_after-answer_body address segment zero (transferred received) small = refl
payload_after-answer_body address segment (suc n) (transferred received) small =
    let some_data : ltb 0 (suc n) ≡ true = lt→ltb 0 (suc n) (omega arith) in
    rw some_data (
      ap (λ (bs : Bytes). replicate 12 0 ++ (le_bytes 2 address ++ (segment ∷ 0 ∷ suc n ∷ bs)))
        (copied-data_field (suc n) received small))

-- The fields of a request for a bus that opens: at most 32 bytes each way, and at least one.
pub record AsksFor {World : Type 0} (driver : I2cDriver World) (w : World) (bus : ℤ)
    (unused : Bytes) (address segment read_len : ℕ) (written : Bytes) : Type 0 where
  pub unused_size : length unused ≡ 12
  pub address_fits : address < 65536
  pub opened : driver.opens w bus ≡ true
  pub write_small : length written ≤ 32
  pub read_small : read_len ≤ 32
  pub something : 0 < length written + read_len

module _ {World : Type 0} (driver : I2cDriver World) (segments : SegmentBusMap) (w : World)
    (bus : ℤ) (unused : Bytes) (address segment read_len : ℕ) (written : Bytes)
    (found : find_bus segment segments ≡ some bus)
    (asks : AsksFor driver w bus unused address segment read_len written) where
  abbrev request : Bytes
  request = i2c_request unused address segment read_len written

  abbrev transferring : TransferResult × World
  transferring = driver.transfer w bus (asked_messages address read_len written)

  bytes_written : read_at 17 (length written) request ≡ written
  bytes_written =
      let behind : Bytes = le_bytes 2 address ++ (segment ∷ length written ∷ read_len ∷ written) in
      ap (take (length written)) (
        sym (drop-drop 5 12 17 (unused ++ behind) refl)
        ∙ ap (drop 5) (drop-append 12 unused behind asks.unused_size))
      ∙ take-all (length written) written (omega arith)

  request_size : length request ≡ 17 + length written
  request_size = omega (
    arith,
    asks.unused_size,
    length-append unused (le_bytes 2 address ++ (segment ∷ length written ∷ read_len ∷ written)),
  )

  -- The i-th byte behind the part that the proxy does not read.
  behind_unused :
      (i j : ℕ)
      → j ≡ 12 + i
      → get_or request j 0
        ≡ get_or (le_bytes 2 address ++ (segment ∷ length written ∷ read_len ∷ written)) i 0
  behind_unused i j e =
      get_or-behind unused (le_bytes 2 address ++ (segment ∷ length written ∷ read_len ∷ written)) i
        j 12 0 asks.unused_size e

  there : (ltb 0 (length written) && ltb (length request - 17) (length written)) ≡ false
  there =
      let enough : ltb (length request - 17) (length written) ≡ false =
        le→ltb _ _ (omega (arith, request_size)) in
      rw enough (ground arith)

  messages-asked :
      messages (address / 2 % 256) (length written) read_len request
      ≡ asked_messages address read_len written
  unfolding messages
  messages-asked = rw bytes_written refl

  bus_writes-transfer :
      bus_writes driver segments (some bus) address (length written) read_len request w
      ≡ (result_writes read_len transferring.0, transferring.1)
  unfolding bus_writes
  bus_writes-transfer = rw (asks.opened, there, messages-asked) refl

  pub i2c_writes-transfer :
      i2c_writes driver segments request w
      ≡ (echo address segment ++ result_writes read_len transferring.0, transferring.1)
  unfolding i2c_writes
  i2c_writes-transfer =
      let long : ltb (length request) 17 ≡ false = le→ltb _ _ (omega (arith, request_size)) in
      let asked_address : load_le 12 2 request ≡ address =
        load_le-append 12 2 address unused (segment ∷ length written ∷ read_len ∷ written)
          asks.unused_size asks.address_fits in
      let idle : (length written == 0 && read_len == 0) ≡ false = ground (arith, asks.something) in
      let large : (ltb 32 (length written) || ltb 32 read_len) ≡ false =
        ground (arith, asks.write_small, asks.read_small) in
      rw
        (
          long,
          asked_address,
          behind_unused 2 14 refl,
          behind_unused 3 15 refl,
          behind_unused 4 16 refl,
          idle,
          large,
          found,
          bus_writes-transfer,
        )
        refl
