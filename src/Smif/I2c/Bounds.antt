-- ===== src/Smif/I2c/Bounds.antt =====
-- Where the I2C proxy writes, and what it asks of the bus.
use ocp_canopy_open_bmc.Common.{
  ℕ, ◌+◌, ◌-◌, ◌/◌, ◌%◌, ◌≤◌, ◌<◌, ◌≡◌, ◌⊎◌, inl, inr, refl, ◌∙◌, Bool, true, false, not, ltb, ◌==◌,
  ◌&&◌, ◌||◌, if◌then◌else◌, if-intro, Bool-cases, ltb→le, Option, none, some, [], ◌∷◌, ◌++◌, ℤ,
  arith, Bytes, length, length-append, length-take, length-replicate, length-write_at, get_or, take,
  drop, replicate, All, load_le, write_at, write_at-inside, fill_n,
}
use ocp_canopy_open_bmc.Packet.{Header, header_bytes, response_header, init_response}
use ocp_canopy_open_bmc.Smif.Response.Frames.{
  Framed, Framed-at, Framed-ext, no_response-Framed, init_filled, write_payload-append,
}
use ocp_canopy_open_bmc.Smif.I2c.{
  I2cDriver, TransferResult, failed, transferred, SegmentBusMap, find_bus, Writes, apply_writes,
  read_buf, copied, result_writes, messages, bus_writes, i2c_writes, handle_i2c_proxy,
  i2c_resp_size,
}

-- Each write lies in the 49 bytes of `I2cResponse`; one of data, at offset 17, has 32 bytes at most.
abbrev pub InBounds : Writes → Type 0
InBounds ws = All (λ (w : ℕ × Bytes). w.0 + length w.1 ≤ 49) ws

length-read_buf : (n : ℕ) (received : Bytes) → length (read_buf n received) ≡ 32
length-read_buf n received = length-write_at 0 (take n received) (replicate 32 0)

length-copied : (n : ℕ) (buf : Bytes) → length (copied n buf) ≡ n
length-copied n buf = omega (
  arith,
  length-append (take n buf) (replicate (n - length buf) 0),
  length-take n buf,
  length-replicate {A = ℕ} (n - length buf) 0,
)

result_writes-InBounds :
    (read_len : ℕ) (result : TransferResult)
    → read_len ≤ 32
    → InBounds (result_writes read_len result)
unfolding result_writes
result_writes-InBounds read_len (failed errno) small = (omega arith, tt)
result_writes-InBounds read_len (transferred received) small =
    let size = length-copied read_len (read_buf read_len received) in
    (omega arith, if-intro InBounds (ltb 0 read_len) (λ _. (omega (arith, size), tt)) (λ _. tt))

-- A state of the bus that no transfer changed, or one that a checked transfer led to.
module _ {World : Type 0} (driver : I2cDriver World) (segments : SegmentBusMap) where
  bus_writes-InBounds :
      (bus : Option ℤ) (address write_len read_len : ℕ) (request : Bytes) (w : World)
      → read_len ≤ 32
      → InBounds (bus_writes driver segments bus address write_len read_len request w).0
  unfolding bus_writes
  bus_writes-InBounds none address write_len read_len request w small = (omega arith, tt)
  bus_writes-InBounds (some bus) address write_len read_len request w small =
      let (result, w') =
        driver.transfer w bus (messages (address / 2 % 256) write_len read_len request) in
      if-intro (λ (r : Writes × World). InBounds r.0) (not (driver.opens w bus))
        (λ _. (omega arith, tt))
        (λ _.
          if-intro (λ (r : Writes × World). InBounds r.0)
            (ltb 0 write_len && ltb (length request - 17) write_len) (λ _. (omega arith, tt))
            (λ _. result_writes-InBounds read_len result small))

  -- Whatever the request and the driver, every write of the proxy lies within its response of 49
  -- bytes. So what it copies behind a transfer, as many bytes as the request asks for, to offset 17,
  -- has at most the 32 bytes of the buffer that it copies from.
  pub i2c_writes-InBounds :
      (request : Bytes) (w : World) → InBounds (i2c_writes driver segments request w).0
  unfolding i2c_writes
  i2c_writes-InBounds request w =
      let segment = get_or request 14 0 in
      let write_len = get_or request 15 0 in
      let read_len = get_or request 16 0 in
      let P = λ (r : Writes × World). InBounds r.0 in
      if-intro P (ltb (length request) 17) (λ _. (omega arith, tt))
        (λ _.
          if-intro P (write_len == 0 && read_len == 0) (λ _. (omega arith, (omega arith, tt)))
            (λ _.
              if-intro P (ltb 32 write_len || ltb 32 read_len)
                (λ _. (omega arith, (omega arith, (omega arith, tt))))
                (λ small. (
                  omega arith,
                  (
                    omega arith,
                    bus_writes-InBounds (find_bus segment segments) (load_le 12 2 request) write_len
                        read_len request w (ground (arith, small)),
                  ),
                ))))

  -- What was checked before a transfer on a bus, and that this transfer led to the new state.
  pub record Checked (request : Bytes) (w w' : World) : Type 0 where
    pub bus : ℤ
    pub found : find_bus (get_or request 14 0) segments ≡ some bus
    pub opened : driver.opens w bus ≡ true
    pub write_small : get_or request 15 0 ≤ 32
    pub read_small : get_or request 16 0 ≤ 32
    pub something : 0 < get_or request 15 0 + get_or request 16 0
    pub data_there : 17 + get_or request 15 0 ≤ length request
    pub led_to :
        w'
        ≡ (driver.transfer w bus (
            messages
              (load_le 12 2 request / 2 % 256)
              (get_or request 15 0)
              (get_or request 16 0)
              request)).1

  bus_writes-Checked :
      (bus : Option ℤ) (request : Bytes) (w : World)
      → find_bus (get_or request 14 0) segments ≡ bus
      → 17 ≤ length request
      → (get_or request 15 0 == 0 && get_or request 16 0 == 0) ≡ false
      → (ltb 32 (get_or request 15 0) || ltb 32 (get_or request 16 0)) ≡ false
      → let w' =
          (bus_writes driver segments bus
            (load_le 12 2 request)
            (get_or request 15 0)
            (get_or request 16 0)
            request
            w).1 in
        (w' ≡ w) ⊎ Checked request w w'
  unfolding bus_writes
  bus_writes-Checked none request w f long some_data small = inl refl
  bus_writes-Checked (some bus) request w f long some_data small =
      let write_len = get_or request 15 0 in
      let missing = ltb 0 write_len && ltb (length request - 17) write_len in
      elim (Bool-cases (driver.opens w bus)) [
        | inr closed ↦ rw closed (inl refl)
        | inl opened ↦ elim (Bool-cases missing) [
          | inl short ↦ rw (opened, short) (inl refl)
          | inr there ↦
              rw (opened, there)
                (inr (record {
                  bus = bus;
                  found = f;
                  opened = opened;
                  write_small = ground arith;
                  read_small = ground arith;
                  something = ground arith;
                  data_there = ground arith;
                  led_to = refl;
                }))
        ]
      ]

  -- The proxy changes the state of the bus only by one transfer, and only on a request that is long
  -- enough, names a known segment whose bus opens, asks for at most 32 bytes each way and at least
  -- one, and holds the bytes to write.
  pub i2c_writes-Checked :
      (request : Bytes) (w : World)
      → let w' = (i2c_writes driver segments request w).1 in (w' ≡ w) ⊎ Checked request w w'
  unfolding i2c_writes
  i2c_writes-Checked request w = elim (Bool-cases (ltb (length request) 17)) [
    | inl short ↦ rw short (inl refl)
    | inr long ↦ elim (Bool-cases (get_or request 15 0 == 0 && get_or request 16 0 == 0)) [
      | inl idle ↦ rw (long, idle) (inl refl)
      | inr some_data ↦
          elim (Bool-cases (ltb 32 (get_or request 15 0) || ltb 32 (get_or request 16 0))) [
            | inl large ↦ rw (long, some_data, large) (inl refl)
            | inr small ↦
                rw (long, some_data, small)
                  (bus_writes-Checked (find_bus (get_or request 14 0) segments) request w refl
                    (ltb→le _ _ long) some_data small)
          ]
    ]
  ]

-- The same writes, on the payload alone.
abbrev pub payload_after : Writes → Bytes → Bytes
payload_after [] body = body
payload_after ((off, src) ∷ ws) body = payload_after ws (write_at off src body)

pub apply_writes-append :
    (ws : Writes) (h : Header) (body rest : Bytes)
    → length body ≡ 49
    → InBounds ws
    → apply_writes ws (header_bytes h ++ (body ++ rest))
      ≡ header_bytes h ++ (payload_after ws body ++ rest)
unfolding apply_writes
apply_writes-append [] h body rest size b = refl
apply_writes-append ((off, src) ∷ ws) h body rest size b =
    let some_byte : 0 < length (body ++ rest) = omega (arith, length-append body rest) in
    rw
      (
        write_payload-append off src h (body ++ rest) some_byte,
        write_at-inside off src body rest (omega (arith, b.0)),
      )
      (apply_writes-append ws h (write_at off src body) rest (length-write_at off src body ∙ size)
        b.1)

pub length-payload_after :
    (ws : Writes) (body : Bytes) → length (payload_after ws body) ≡ length body
length-payload_after [] body = refl
length-payload_after ((off, src) ∷ ws) body =
    length-payload_after ws (write_at off src body) ∙ length-write_at off src body

if-first {ℓ κ} :
    {A : Type ℓ} {B : Type κ} (b : Bool) (x y : A × B)
    → (if b then x else y).0 ≡ (if b then x.0 else y.0)
if-first true x y = refl
if-first false x y = refl

pub handle_i2c_proxy-Framed :
    {World : Type 0} (driver : I2cDriver World) (segments : SegmentBusMap) (hdr : Header)
    (capacity : ℕ) (request : Bytes) (w : World)
    → Framed hdr capacity (λ response. (handle_i2c_proxy driver segments hdr request response w).0)
unfolding handle_i2c_proxy
handle_i2c_proxy-Framed driver segments hdr capacity request w =
    let ws = (i2c_writes driver segments request w).0 in
    let body = payload_after ws (replicate 49 0) in
    let framed =
      Framed-at hdr capacity i2c_resp_size body
        (λ response.
          apply_writes ws (init_response (fill_n i2c_resp_size response) hdr i2c_resp_size))
        (omega (arith, length-payload_after ws (replicate 49 0))) (omega arith)
        (λ response room. rw (init_filled 57 49 57 hdr response refl room) (
          apply_writes-append ws (response_header hdr 57) (replicate 49 0) (drop 57 response) refl
            (i2c_writes-InBounds driver segments request w)))
        (no_response-Framed hdr capacity) in
    Framed-ext (λ response. if-first (ltb (length response) i2c_resp_size) _ _) framed
