-- ===== src/Tests/Proxy.antt =====
-- The SMIF service and its I2C proxy at concrete inputs.
use ocp_canopy_open_bmc.Common.{ℕ, ◌+◌, ◌≡◌, ◌⊎◌, true, pos, none, some, [], ◌∷◌, arith, Bytes}
use ocp_canopy_open_bmc.Packet.{parse_header}
use ocp_canopy_open_bmc.Smif.Response.Frames.{Framed}
use ocp_canopy_open_bmc.Smif.I2c.{I2cDriver, SegmentBusMap, transferred, i2c_writes}
use ocp_canopy_open_bmc.Smif.I2c.Bounds.{InBounds, Checked, i2c_writes-InBounds, i2c_writes-Checked}
use ocp_canopy_open_bmc.Smif.Ev.Answers.{ValidIfAny}
use ocp_canopy_open_bmc.Smif.Service.{SmifService, handle}
use ocp_canopy_open_bmc.Smif.Service.Refine.{handle-Framed, handle-ValidIfAny}
use ocp_canopy_open_bmc.EvStorage.{saved, entries_size}

-- A driver that counts its transfers and reads two bytes each time.
abbrev counter : I2cDriver ℕ
counter = record {
  opens = λ w bus. true;
  transfer = λ w bus messages. (transferred (171 ∷ 205 ∷ []), w + 1);
}

abbrev segments : SegmentBusMap
segments = (3, pos 7) ∷ []

-- One byte to write and two to read at address 0x50 of segment 3.
abbrev transaction : Bytes
transaction = 0 ∷ 0 ∷ 0 ∷ 0 ∷ 0 ∷ 0 ∷ 0 ∷ 0 ∷ 0 ∷ 0 ∷ 0 ∷ 0 ∷ 160 ∷ 0 ∷ 3 ∷ 1 ∷ 2 ∷ 16 ∷ []

abbrev service : SmifService ℕ
service = record {
  ev_storage = some (record { entries = []; file = none; outcomes = λ n. saved });
  segment_to_bus = segments;
  world = 0;
}

-- A stats command.
abbrev stats : Bytes
stats = 8 ∷ 0 ∷ 1 ∷ 0 ∷ 50 ∷ 1 ∷ 0 ∷ 1 ∷ []

service-ValidIfAny : ValidIfAny service.ev_storage
unfolding entries_size
service-ValidIfAny = record { each = tt; small = omega arith }

i2c_writes-InBounds_example : InBounds (i2c_writes counter segments transaction 0).0
i2c_writes-InBounds_example = i2c_writes-InBounds counter segments transaction 0

i2c_writes-Checked_example :
    ((i2c_writes counter segments transaction 0).1 ≡ 0)
    ⊎ Checked counter segments transaction 0 (i2c_writes counter segments transaction 0).1
i2c_writes-Checked_example = i2c_writes-Checked counter segments transaction 0

handle-Framed_example :
    Framed (parse_header stats) 64 (λ response. (handle counter service stats response).0)
handle-Framed_example = handle-Framed counter service stats 64 service-ValidIfAny

handle-ValidIfAny_example : ValidIfAny (handle counter service stats []).1.ev_storage
handle-ValidIfAny_example = handle-ValidIfAny counter service stats [] service-ValidIfAny
