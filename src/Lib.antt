-- ===== src/Lib.antt =====
-- The CHIF service of the GXP BMC: the daemon that answers the host firmware's packets.
--
-- The code is in meta-canopy/meta-hpe/meta-common/recipes-hpe/gxp-chif-service/gxp-chif-service/src
-- (below: src). The daemon reads a packet from the kernel's device, finds the handler of the service
-- that the header names, and writes the response that the handler puts in the response buffer.
--   Packet     src/packet.hpp: headers, payloads, initResponse and initRomResponse. Packet/Frame has
--              the frames that responses stand for, as byte lists.
--   Health     src/health_service.cpp
--   Smbios     src/smbios_writer.cpp: begin, addRecord, finalize, computeChecksum
--   MdrBridge  src/mdr_bridge.cpp: the D-Bus call that has the new file read
--   Rom        src/rom_service.cpp: the commands that drive the SMBIOS writer
--   EvStorage  src/ev_storage.cpp: load, set, del, deleteAll, save and the queries
--   Smif       src/smif_service.cpp: Response (the response builders), Ev (the commands on the
--              store), I2c (the proxy), Service (the switch; its State, Store and Proxy see a
--              packet whole)
--   Daemon     src/chif_daemon.cpp: registerHandler, run, stop; Channel has run on a channel in
--              place of a row of events. Fresh is a server without buffers, to compare it with
--   UefiFv     src/uefi_fv.cpp: the formats and reads, Walk (over the files of a volume), Search
--              (extractFfsFile). Termination and Hang are about when it ends, Sound, Files and
--              Image about what it returns
--   PlatDef    src/platdef_extract.cpp: Extract (findMtdByLabel, extractPlatDef), Bundle
--              (decompressPlatDef), Records (parseI2cSegments), Topology (scanMuxTopology), Build
--              (buildSegmentBusMap), Table (the maps)
--   Main       src/main.cpp: the daemon with its three services. Boot: what main builds them from, the
--              flash and sysfs included. Device: main from opening the device to closing it.
--              Apart, Upload, Restart, Enumerate and Proxy follow the services through whole runs
--   Tests      runs at concrete inputs
--   Common     lists, bytes, buffers and Boolean tests that the parts share
--
-- Bytes are numbers; where a property needs them below 256 it says so. Integers of a width keep
-- their wrap-around. A response buffer is a list that keeps its length, and a handler returns the
-- int that the code returns and the buffer after its writes. C++ objects that the services hold by
-- reference (writer, store) have one owner, so they are fields of the service's state.
--
-- Most loops are structural: over the record count that addRecord caps at 1000, over the count
-- that load caps at 10000, over the bytes of a struct, over the entries of a list. The daemon's
-- loop runs along the events that it meets so far (results of reads, and signals). It has
-- returned behind them when its flag is down; with the flag up the program is still in it, has
-- no exit code and has not closed the device (Daemon/Returns). Three loops over the flash run on
-- fuel. One round of the search goes on by 64 KiB at least unless an offset wraps around, one
-- round of the walk over the files of a volume by 24 bytes at least, one round of the parser of
-- the records by 16 bytes at least, so the sizes of the image and of the blob bound the fuel. In
-- the readers of the flash a result of none means that the fuel ran out or that bytes behind a
-- buffer were touched; size_t there has 32 bits, as on the ARMv6 target.
--
-- Parameters: the kernel's I2C driver (I2cDriver), zlib's uncompress, the contents of a device
-- node, directory listings as lists, and as streams of answers the file operations of save and
-- finalize and the clock, and for each D-Bus call whether it goes through; for the start of
-- src/main.cpp, whether the connection comes up and gives the name. The kernel's calls on the
-- device are a parameter too (Kernel, in Main/Device). Left out: logs.
-- Not modelled: the recipes, device trees and documents of the layers (build data).
pub mod Common
pub mod Packet
pub mod Health
pub mod Smbios
pub mod MdrBridge
pub mod Rom
pub mod EvStorage
pub mod Smif
pub mod Daemon
pub mod UefiFv
pub mod PlatDef
pub mod Main
pub mod Tests
