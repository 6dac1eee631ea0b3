-- ===== src/PlatDef/Topology.antt =====
-- src/platdef_extract.cpp: the scan of sysfs for the buses of the I2C multiplexers, and the numbers
-- that it parses with `std::stoul` and `std::stoi`.
--
-- A directory is the list of its entries in the order of the iteration. A channel has the name that
-- its symbolic link ends in, or none when the link cannot be read; the entries of a multiplexer are
-- none when it cannot be iterated, and then the exception ends the scan. `long` has 32 bits.
pub mod Found
pub mod Decimal
pub mod Printed
use ocp_canopy_open_bmc.Common.{
  ℕ, ◌+◌, ◌-◌, ◌*◌, ◌%◌, ◌^◌, Bool, true, false, ◌&&◌, ◌||◌, ltb, leb, ◌==◌, if◌then◌else◌, Option,
  none, some, List, [], ◌∷◌, Bytes, ℤ, pos, negsuc,
}
use ocp_canopy_open_bmc.PlatDef.Table.{put}

unfoldable pub is_digit : ℕ → Bool
is_digit c = leb 48 c && ltb c 58

unfoldable pub is_space : ℕ → Bool
is_space c = c == 32 || (leb 9 c && ltb c 14)

unfoldable pub skip_space : Bytes → Bytes
skip_space [] = []
skip_space (c ∷ cs) = let rest = skip_space cs in if is_space c then rest else c ∷ cs

-- The number that the leading digits say, behind digits that say `acc`.
unfoldable pub digits_value : ℕ → Bytes → ℕ
digits_value acc [] = acc
digits_value acc (c ∷ cs) =
    let rest = digits_value (acc * 10 + (c - 48)) cs in if is_digit c then rest else acc

-- None: no digit.
unfoldable pub magnitude : Bytes → Option ℕ
magnitude [] = none
magnitude (c ∷ cs) = if is_digit c then some (digits_value 0 (c ∷ cs)) else none

-- Whether a minus sign stands in front, and what stands behind the sign.
unfoldable pub sign : Bytes → Bool × Bytes
sign [] = (false, [])
sign (c ∷ cs) = if c == 45 then (true, cs) else if c == 43 then (false, cs) else (false, c ∷ cs)

unfoldable pub unsigned_of : Bool → Option ℕ → Option ℕ
unsigned_of negative none = none
unsigned_of negative (some v) =
    if leb (2 ^ 32) v then none else if negative then some ((2 ^ 32 - v) % 2 ^ 32) else some v

-- `std::stoul`; none: it throws.
unfoldable pub stoul : Bytes → Option ℕ
stoul s = let (negative, digits) = sign (skip_space s) in unsigned_of negative (magnitude digits)

unfoldable pub int_of : Bool → Option ℕ → Option ℤ
int_of negative none = none
int_of negative (some v) =
    if negative
    then (if v == 0 then some (pos 0) else if ltb (2 ^ 31) v then none else some (negsuc (v - 1)))
    else if leb (2 ^ 31) v
    then none
    else some (pos v)

-- `std::stoi`; none: it throws.
unfoldable pub stoi : Bytes → Option ℤ
stoi s = let (negative, digits) = sign (skip_space s) in int_of negative (magnitude digits)

-- `starts_with` and `substr` behind the prefix.
unfoldable pub strip : Bytes → Bytes → Option Bytes
strip [] s = some s
strip (p ∷ ps) [] = none
strip (p ∷ ps) (c ∷ cs) = let rest = strip ps cs in if p == c then rest else none

-- The first of two results.
unfoldable pub or_else : Option Bytes → Option Bytes → Option Bytes
or_else none later = later
or_else (some s) later = some s

-- `find` and `substr` behind the first occurrence.
unfoldable pub behind : Bytes → Bytes → Option Bytes
behind pat [] = strip pat []
behind pat (c ∷ cs) = or_else (strip pat (c ∷ cs)) (behind pat cs)

-- "ahb@"
abbrev pub ahb_prefix : Bytes
ahb_prefix = 97 ∷ 104 ∷ 98 ∷ 64 ∷ []

-- "i2cmux@"
abbrev pub i2cmux_infix : Bytes
i2cmux_infix = 105 ∷ 50 ∷ 99 ∷ 109 ∷ 117 ∷ 120 ∷ 64 ∷ []

-- "channel-"
abbrev pub channel_prefix : Bytes
channel_prefix = 99 ∷ 104 ∷ 97 ∷ 110 ∷ 110 ∷ 101 ∷ 108 ∷ 45 ∷ []

-- "i2c-"
abbrev pub i2c_prefix : Bytes
i2c_prefix = 105 ∷ 50 ∷ 99 ∷ 45 ∷ []

-- An entry below a multiplexer.
pub record Channel : Type 0 where
  pub name : Bytes
  pub target : Option Bytes

-- An entry below the bus of the chip.
pub record Device : Type 0 where
  pub name : Bytes
  pub channels : Option (List Channel)

unfoldable pub bind {ℓ} : {A B : Type ℓ} → Option A → (A → Option B) → Option B
bind none f = none
bind (some a) f = f a

-- A number that fits `uint8_t`.
unfoldable pub small_stoul : Bytes → Option ℕ
small_stoul s = bind (stoul s) (λ v. if ltb 255 v then none else some v)

-- The number of a multiplexer, of a channel and of the bus that a link names, unless the entry is
-- skipped.
unfoldable pub mux_of : Bytes → Option ℕ
mux_of name = bind (strip ahb_prefix name) (λ _. bind (behind i2cmux_infix name) small_stoul)

unfoldable pub channel_of : Bytes → Option ℕ
channel_of name = bind (strip channel_prefix name) small_stoul

unfoldable pub bus_of : Option Bytes → Option ℤ
bus_of target = bind target (λ name. bind (strip i2c_prefix name) stoi)

-- `muxTopology`
abbrev pub MuxTopology : Type 0
MuxTopology = List (ℕ × ℤ)

-- `(mux << 8) | channel`: the channel has 8 bits, so the bitwise or is the sum.
unfoldable pub mux_key : ℕ → ℕ → ℕ
mux_key mux channel = mux * 256 + channel

unfoldable pub put_channel : ℕ → Option ℕ → Option ℤ → MuxTopology → MuxTopology
put_channel mux (some channel) (some bus) result = put (mux_key mux channel) bus result
put_channel mux _ _ result = result

-- The loop over the entries of a multiplexer.
unfoldable pub scan_channels : ℕ → List Channel → MuxTopology → MuxTopology
scan_channels mux [] result = result
scan_channels mux (c ∷ cs) result =
    scan_channels mux cs (put_channel mux (channel_of c.name) (bus_of c.target) result)

-- A round for a device: `next` is the rest of the scan.
unfoldable pub on_device :
    (MuxTopology → MuxTopology) → Option ℕ → Option (List Channel) → MuxTopology → MuxTopology
on_device next none channels result = next result
on_device next (some mux) none result = result
on_device next (some mux) (some channels) result = next (scan_channels mux channels result)

unfoldable pub scan_devices : List Device → MuxTopology → MuxTopology
scan_devices [] result = result
scan_devices (d ∷ ds) result = on_device (scan_devices ds) (mux_of d.name) d.channels result

-- `scanMuxTopology`, on the entries below the bus of the chip; a missing directory has none.
unfoldable pub scan_mux_topology : List Device → MuxTopology
scan_mux_topology devices = scan_devices devices []
