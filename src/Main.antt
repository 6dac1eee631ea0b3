-- ===== src/Main.antt =====
-- src/main.cpp: the daemon with its three services. Boot is the rest of `main`.
pub mod Whole
pub mod Apart
pub mod Upload
pub mod First
pub mod Proxy
pub mod Enumerate
pub mod Boot
pub mod Restart
pub mod Device
use ocp_canopy_open_bmc.Common.{false, [], Bytes, replicate}
use ocp_canopy_open_bmc.Packet.{max_packet_size, smif_service_id, rom_service_id, health_service_id}
use ocp_canopy_open_bmc.Packet.Frame.{Handled}
use ocp_canopy_open_bmc.Health
use ocp_canopy_open_bmc.Rom
use ocp_canopy_open_bmc.Rom.{RomService}
use ocp_canopy_open_bmc.Smif.Service
use ocp_canopy_open_bmc.Smif.Service.{SmifService}
use ocp_canopy_open_bmc.Smif.I2c.{I2cDriver}
use ocp_canopy_open_bmc.Daemon.{ServiceHandler, Handlers, ChifDaemon, register_handler}

-- What the three services keep.
pub record Services (World : Type 0) : Type 0 where
  pub rom : RomService
  pub smif : SmifService World

module _ {World : Type 0} where
  abbrev pub rom_handler : ServiceHandler (Services World)
  rom_handler = record {
    service_id = rom_service_id;
    handle = λ w request response.
        let (handled, rom) = Rom.handle w.rom request response in (handled, record w { rom = rom });
  }

  abbrev pub health_handler : ServiceHandler (Services World)
  health_handler = record {
    service_id = health_service_id;
    handle = λ w request response. (Health.handle request response, w);
  }

  abbrev pub smif_handler : I2cDriver World → ServiceHandler (Services World)
  smif_handler driver = record {
    service_id = smif_service_id;
    handle = λ w request response.
        let (handled, smif) = Service.handle driver w.smif request response in
        (handled, record w { smif = smif });
  }

  -- The registrations of `main`.
  unfoldable pub registered : I2cDriver World → Handlers (Services World)
  registered driver =
      register_handler health_handler
        (register_handler (smif_handler driver) (register_handler rom_handler []))

  -- The daemon of `main`, with buffers of zeros.
  unfoldable pub main_daemon : I2cDriver World → Services World → ChifDaemon (Services World)
  main_daemon driver services = record {
    handlers = registered driver;
    running = false;
    consecutive_errors = 0;
    error_retry_counter = 0;
    recv_buf = replicate max_packet_size 0;
    resp_buf = replicate max_packet_size 0;
    world = services;
  }
