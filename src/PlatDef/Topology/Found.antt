-- ===== src/PlatDef/Topology/Found.antt =====
-- What the entries of the scan come from.
use ocp_canopy_open_bmc.Common.{
  ℕ, suc, ◌<◌, ◌≡◌, refl, ltb, if◌then◌else◌, Option, none, some, List, [], ◌∷◌, arith, ℤ, Bytes,
  All, get_elem?,
}
use ocp_canopy_open_bmc.PlatDef.Table.{UniqueKeys, put-All, put-UniqueKeys}
use ocp_canopy_open_bmc.PlatDef.Topology.{
  Channel, Device, MuxTopology, bind, stoul, small_stoul, strip, behind, ahb_prefix, i2cmux_infix,
  channel_prefix, mux_of, channel_of, bus_of, mux_key, put_channel, scan_channels, on_device,
  scan_devices, scan_mux_topology,
}

-- An entry of the map: the multiplexer and the channel whose names and link say it.
pub record IsFound (devices : List Device) (entry : ℕ × ℤ) : Type 0 where
  pub i : ℕ
  pub device : Device
  pub is_device : get_elem? devices i ≡ some device
  pub channels : List Channel
  pub has_channels : device.channels ≡ some channels
  pub j : ℕ
  pub channel : Channel
  pub is_channel : get_elem? channels j ≡ some channel
  pub mux_number : ℕ
  pub channel_number : ℕ
  pub says_mux : mux_of device.name ≡ some mux_number
  pub says_channel : channel_of channel.name ≡ some channel_number
  pub says_bus : bus_of channel.target ≡ some entry.1
  pub small_mux : mux_number < 256
  pub small_channel : channel_number < 256
  pub key : entry.0 ≡ mux_key mux_number channel_number

bind-some :
    {A B : Type 0} (o : Option A) (f : A → Option B) (b : B)
    → bind o f ≡ some b
    → (a : A) × (f a ≡ some b)
unfolding bind
bind-some none f b h = absurd (ground arith)
bind-some (some a) f b h = (a, h)

small_stoul-lt : (s : Bytes) (v : ℕ) → small_stoul s ≡ some v → v < 256
unfolding small_stoul
small_stoul-lt s v h =
    let (w, e) = bind-some (stoul s) (λ v. if ltb 255 v then none else some v) v h in below w v e
  where
    below : (w v : ℕ) → (if ltb 255 w then none else some w) ≡ some v → v < 256
    below w v e = ground arith

mux_of-lt : (name : Bytes) (v : ℕ) → mux_of name ≡ some v → v < 256
unfolding mux_of
mux_of-lt name v h =
    let (rest, e) = bind-some (strip ahb_prefix name) _ v h in
    let (digits, e') = bind-some (behind i2cmux_infix name) small_stoul v e in
    small_stoul-lt digits v e'

channel_of-lt : (name : Bytes) (v : ℕ) → channel_of name ≡ some v → v < 256
unfolding channel_of
channel_of-lt name v h =
    let (digits, e) = bind-some (strip channel_prefix name) small_stoul v h in
    small_stoul-lt digits v e

-- The predicate holds for whatever a channel of the multiplexer says.
abbrev Says : (ℕ × ℤ → Type 0) → ℕ → List Channel → Type 0
Says P mux cs =
    (j : ℕ) (c : Channel) (n : ℕ) (bus : ℤ)
    → get_elem? cs j ≡ some c
    → channel_of c.name ≡ some n
    → bus_of c.target ≡ some bus
    → P (mux_key mux n, bus)

-- Entries with a property, and each key once.
record Holds (P : ℕ × ℤ → Type 0) (result : MuxTopology) : Type 0 where
  each : All P result
  unique : UniqueKeys result

module _ (P : ℕ × ℤ → Type 0) where
  put_channel-Holds :
      (mux : ℕ) (n : Option ℕ) (bus : Option ℤ) (result : MuxTopology)
      → ((k : ℕ) (b : ℤ) → n ≡ some k → bus ≡ some b → P (mux_key mux k, b))
      → Holds P result
      → Holds P (put_channel mux n bus result)
  unfolding put_channel
  put_channel-Holds mux none bus result says h = h
  put_channel-Holds mux (some n) none result says h = h
  put_channel-Holds mux (some n) (some bus) result says h = record {
    each = put-All P (mux_key mux n) bus result (says n bus refl refl) h.each;
    unique = put-UniqueKeys (mux_key mux n) bus result h.unique;
  }

  scan_channels-Holds :
      (mux : ℕ) (cs : List Channel) (result : MuxTopology)
      → Says P mux cs
      → Holds P result
      → Holds P (scan_channels mux cs result)
  unfolding scan_channels
  scan_channels-Holds mux [] result says h = h
  scan_channels-Holds mux (c ∷ cs) result says h =
      scan_channels-Holds mux cs (put_channel mux (channel_of c.name) (bus_of c.target) result)
        (λ j. says (suc j))
        (put_channel-Holds mux (channel_of c.name) (bus_of c.target) result
          (λ k b. says 0 c k b refl) h)

  on_device-Holds :
      (next : MuxTopology → MuxTopology) (mux : Option ℕ) (channels : Option (List Channel))
      (result : MuxTopology)
      → ((new : MuxTopology) → Holds P new → Holds P (next new))
      → ((m : ℕ) (cs : List Channel) → mux ≡ some m → channels ≡ some cs → Says P m cs)
      → Holds P result
      → Holds P (on_device next mux channels result)
  unfolding on_device
  on_device-Holds next none channels result later says h = later result h
  on_device-Holds next (some m) none result later says h = h
  on_device-Holds next (some m) (some cs) result later says h =
      later (scan_channels m cs result) (scan_channels-Holds m cs result (says m cs refl refl) h)

  scan_devices-Holds :
      (ds : List Device) (result : MuxTopology)
      → ((i : ℕ) (d : Device) (m : ℕ) (cs : List Channel)
          → get_elem? ds i ≡ some d
          → mux_of d.name ≡ some m
          → d.channels ≡ some cs
          → Says P m cs)
      → Holds P result
      → Holds P (scan_devices ds result)
  unfolding scan_devices
  scan_devices-Holds [] result says h = h
  scan_devices-Holds (d ∷ ds) result says h =
      on_device-Holds (scan_devices ds) (mux_of d.name) d.channels result
        (λ new. scan_devices-Holds ds new (λ i. says (suc i))) (λ m cs. says 0 d m cs refl) h

-- The scan holds each key once. Each of its entries comes from a channel below a multiplexer whose
-- names say numbers below 256 that make the key, and whose link names the bus.
pub scan-IsFound :
    (devices : List Device)
    → All (IsFound devices) (scan_mux_topology devices) × UniqueKeys (scan_mux_topology devices)
unfolding scan_mux_topology
scan-IsFound devices =
    let holds =
      scan_devices-Holds (IsFound devices) devices []
        (λ i d m cs is_device says_mux has_channels j c n bus is_channel says_channel says_bus.
          record {
            i = i;
            device = d;
            is_device = is_device;
            channels = cs;
            has_channels = has_channels;
            j = j;
            channel = c;
            is_channel = is_channel;
            mux_number = m;
            channel_number = n;
            says_mux = says_mux;
            says_channel = says_channel;
            says_bus = says_bus;
            small_mux = mux_of-lt d.name m says_mux;
            small_channel = channel_of-lt c.name n says_channel;
            key = refl;
          })
        (record { each = tt; unique = tt }) in
    (holds.each, holds.unique)
