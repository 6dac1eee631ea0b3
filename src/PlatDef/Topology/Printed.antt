-- ===== src/PlatDef/Topology/Printed.antt =====
-- The listing that sysfs gives for a set of multiplexers, and its scan.
use ocp_canopy_open_bmc.Common.{
  ℕ, ◌^◌, ◌<◌, ◌≡◌, refl, ap, ap₂, ◌∙◌, false, ltb, ◌==◌, le→ltb, Option, none, some, List, [], ◌∷◌,
  ◌++◌, ◌⊎◌, inl, inr, arith, Bytes, All, ℤ, pos,
}
use ocp_canopy_open_bmc.PlatDef.Table.{put}
use ocp_canopy_open_bmc.PlatDef.Topology.{
  Channel, Device, MuxTopology, bind, small_stoul, strip, or_else, behind, ahb_prefix, i2cmux_infix,
  channel_prefix, i2c_prefix, mux_of, channel_of, bus_of, mux_key, put_channel, scan_channels,
  on_device, scan_devices, scan_mux_topology,
}
use ocp_canopy_open_bmc.PlatDef.Topology.Decimal.{decimal, stoul-decimal, stoi-decimal}

-- An entry below a multiplexer: a channel with its bus, or one that the scan skips.
pub data ListedChannel : Type 0 where
  channel : ℕ → ℕ → ListedChannel
  other_channel : Channel → ListedChannel

-- An entry below the bus of the chip: a multiplexer, with what its name has between "ahb@" and
-- "i2cmux@", or one that the scan skips.
pub data ListedDevice : Type 0 where
  mux : Bytes → ℕ → List ListedChannel → ListedDevice
  other_device : Device → ListedDevice

abbrev pub channel_entry : ListedChannel → Channel
channel_entry (channel number bus) = record {
  name = channel_prefix ++ decimal 3 number;
  target = some (i2c_prefix ++ decimal 10 bus);
}
channel_entry (other_channel c) = c

abbrev pub channel_entries : List ListedChannel → List Channel
channel_entries [] = []
channel_entries (c ∷ cs) = channel_entry c ∷ channel_entries cs

abbrev pub device_entry : ListedDevice → Device
device_entry (mux front number cs) = record {
  name = ahb_prefix ++ (front ++ (i2cmux_infix ++ decimal 3 number));
  channels = some (channel_entries cs);
}
device_entry (other_device d) = d

abbrev pub device_entries : List ListedDevice → List Device
device_entries [] = []
device_entries (d ∷ ds) = device_entry d ∷ device_entries ds

-- What the listing says.
abbrev pub put_listed_channels : ℕ → List ListedChannel → MuxTopology → MuxTopology
put_listed_channels m [] result = result
put_listed_channels m (channel number bus ∷ cs) result =
    put_listed_channels m cs (put (mux_key m number) (pos bus) result)
put_listed_channels m (other_channel c ∷ cs) result = put_listed_channels m cs result

abbrev pub put_listed : List ListedDevice → MuxTopology → MuxTopology
put_listed [] result = result
put_listed (mux front number cs ∷ ds) result = put_listed ds (put_listed_channels number cs result)
put_listed (other_device d ∷ ds) result = put_listed ds result

abbrev pub IsListedChannel : ListedChannel → Type 0
IsListedChannel (channel number bus) = (number < 256) × (bus < 2 ^ 31)
IsListedChannel (other_channel c) = (channel_of c.name ≡ none) ⊎ (bus_of c.target ≡ none)

-- The text in front of "i2cmux@" has no letter i (105).
abbrev pub IsListed : ListedDevice → Type 0
IsListed (mux front number cs) =
    All (λ c. (c == 105) ≡ false) front × ((number < 256) × All IsListedChannel cs)
IsListed (other_device d) = mux_of d.name ≡ none

small_stoul-decimal : (n : ℕ) → n < 256 → small_stoul (decimal 3 n) ≡ some n
unfolding small_stoul bind
small_stoul-decimal n small =
    let in_range : ltb 255 n ≡ false = le→ltb 255 n (omega arith) in
    rw (stoul-decimal 3 n (omega arith) (omega arith) (omega arith), in_range) refl

behind-infix :
    (front rest : Bytes)
    → All (λ c. (c == 105) ≡ false) front
    → behind i2cmux_infix (front ++ (i2cmux_infix ++ rest)) ≡ some rest
unfolding behind strip or_else
behind-infix [] rest plain = refl
behind-infix (c ∷ front) rest plain =
    let other : (105 == c) ≡ false = ground (arith, plain.0) in
    rw other (behind-infix front rest plain.1)

mux_of-printed :
    (front : Bytes) (n : ℕ)
    → All (λ c. (c == 105) ≡ false) front
    → n < 256
    → mux_of (ahb_prefix ++ (front ++ (i2cmux_infix ++ decimal 3 n))) ≡ some n
unfolding mux_of bind strip
mux_of-printed front n plain small =
    rw (behind-infix (ahb_prefix ++ front) (decimal 3 n) (refl, (refl, (refl, (refl, plain)))))
      (small_stoul-decimal n small)

channel_of-printed : (n : ℕ) → n < 256 → channel_of (channel_prefix ++ decimal 3 n) ≡ some n
unfolding channel_of bind strip
channel_of-printed n small = small_stoul-decimal n small

bus_of-printed : (n : ℕ) → n < 2 ^ 31 → bus_of (some (i2c_prefix ++ decimal 10 n)) ≡ some (pos n)
unfolding bus_of bind strip
bus_of-printed n small = stoi-decimal 10 n (omega arith) (omega arith) (omega arith)

put_channel-skipped :
    (m : ℕ) (number : Option ℕ) (bus : Option ℤ) (result : MuxTopology)
    → (number ≡ none) ⊎ (bus ≡ none)
    → put_channel m number bus result ≡ result
unfolding put_channel
put_channel-skipped m none bus result skipped = refl
put_channel-skipped m (some number) none result skipped = refl
put_channel-skipped m (some number) (some bus) result (inl skipped) = cc
put_channel-skipped m (some number) (some bus) result (inr skipped) = cc

scan_channels-listed :
    (m : ℕ) (cs : List ListedChannel) (result : MuxTopology)
    → All IsListedChannel cs
    → scan_channels m (channel_entries cs) result ≡ put_listed_channels m cs result
unfolding scan_channels put_channel
scan_channels-listed m [] result listed = refl
scan_channels-listed m (channel number bus ∷ cs) result ((small, fits), listed) =
    ap₂ (λ n b. scan_channels m (channel_entries cs) (put_channel m n b result))
      (channel_of-printed number small) (bus_of-printed bus fits)
    ∙ scan_channels-listed m cs (put (mux_key m number) (pos bus) result) listed
scan_channels-listed m (other_channel c ∷ cs) result (skipped, listed) =
    ap (scan_channels m (channel_entries cs))
      (put_channel-skipped m (channel_of c.name) (bus_of c.target) result skipped)
    ∙ scan_channels-listed m cs result listed

scan_devices-listed :
    (ds : List ListedDevice) (result : MuxTopology)
    → All IsListed ds
    → scan_devices (device_entries ds) result ≡ put_listed ds result
unfolding scan_devices on_device
scan_devices-listed [] result listed = refl
scan_devices-listed (mux front number cs ∷ ds) result ((plain, (small, each)), listed) =
    ap (λ n. on_device (scan_devices (device_entries ds)) n (some (channel_entries cs)) result)
      (mux_of-printed front number plain small)
    ∙ ap (scan_devices (device_entries ds)) (scan_channels-listed number cs result each)
    ∙ scan_devices-listed ds (put_listed_channels number cs result) listed
scan_devices-listed (other_device d ∷ ds) result (skipped, listed) =
    ap (λ n. on_device (scan_devices (device_entries ds)) n d.channels result) skipped
    ∙ scan_devices-listed ds result listed

-- Of a listing of multiplexers and channels with numbers below 256, buses below 2^31, all printed in
-- decimal, of entries that are no multiplexer, and of ones below
-- a multiplexer that are no channel or whose link names no bus, the scan returns exactly the map
-- that the channels put, in the order of the listing. No letter i stands in front of "i2cmux@".
pub scan-listed :
    (ds : List ListedDevice)
    → All IsListed ds
    → scan_mux_topology (device_entries ds) ≡ put_listed ds []
unfolding scan_mux_topology
scan-listed ds listed = scan_devices-listed ds [] listed
