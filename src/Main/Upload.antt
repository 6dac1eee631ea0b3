-- ===== src/Main/Upload.antt =====
-- An upload of SMBIOS records to the whole program.
use ocp_canopy_open_bmc.Common.{
  ◌+◌, ◌%◌, ◌≤◌, ◌<◌, ◌≡◌, refl, ap, ◌∙◌, some, List, [], ◌∷◌, ◌++◌, Bytes, length, All,
}
use ocp_canopy_open_bmc.Packet.{rom_service_id}
use ocp_canopy_open_bmc.Packet.Frame.{IsCommand}
use ocp_canopy_open_bmc.Smbios.{FileOutcome, max_smbios_data_size}
use ocp_canopy_open_bmc.Smbios.Image.{IsImage}
use ocp_canopy_open_bmc.Rom.{RomService, asked}
use ocp_canopy_open_bmc.Rom.Session.{serve, serve-append, CarryAll, joined_all, session_stores}
use ocp_canopy_open_bmc.Smif.I2c.{I2cDriver}
use ocp_canopy_open_bmc.Daemon.{Event, run}
use ocp_canopy_open_bmc.Daemon.Replies.{PacketEvent}
use ocp_canopy_open_bmc.Daemon.Fresh.{packets_read, zeros}
use ocp_canopy_open_bmc.Main.{Services, main_daemon}
use ocp_canopy_open_bmc.Main.Whole.{StoreValid}
use ocp_canopy_open_bmc.Main.Apart.{packets_for, in_zeros, main-services}

in_zeros-append : (xs ys : List Bytes) → in_zeros (xs ++ ys) ≡ in_zeros xs ++ in_zeros ys
in_zeros-append [] ys = refl
in_zeros-append (x ∷ xs) ys = ap (◌∷◌ (x, zeros)) (in_zeros-append xs ys)

-- What a session leaves, when the writer's next file operations go through.
pub record Uploaded (before : RomService) (records : Bytes) (after : RomService) : Type 0 where
  pub file : Bytes
  pub stored : after.writer.output ≡ some file
  pub is_image :
      IsImage file
        ((before.writer.directory_version + 1) % 256)
        (before.writer.surroundings 0).epoch
        records
  pub bridge_asked : after.mdr_bridge ≡ asked before.mdr_bridge

module _ {World : Type 0} (driver : I2cDriver World) where
  -- Let a run of the daemon of `main` start from a store within its limits or none, and let its
  -- packets for the ROM service, of those read before the first signal, end in an upload: a begin
  -- command, record or blob commands that carry some batches of records (1 to 1000 records of 1 to
  -- 65535 bytes in each batch, at least one byte and at most 1 MiB in all), and an end command. If
  -- the writer's file operations then go through, the run leaves a file with exactly those records
  -- in order, under the directory version next to the one before the upload, and has the bridge, if
  -- there is one, call AgentSynchronizeData once more. This holds whatever the host sent before the
  -- upload, and whatever packets of other services and reads that fail come among its packets.
  pub main-Uploaded :
      (services : Services World) (es : List Event) (earlier requests : List Bytes)
      (batches : List (List Bytes)) (first last : Bytes)
      → StoreValid driver services
      → All PacketEvent es
      → packets_for rom_service_id (packets_read es)
        ≡ earlier ++ (first ∷ (requests ++ (last ∷ [])))
      → IsCommand 3 first
      → CarryAll batches (in_zeros requests)
      → IsCommand 5 last
      → 0 < length (joined_all batches)
      → length (joined_all batches) ≤ max_smbios_data_size
      → ((serve services.rom (in_zeros earlier)).writer.surroundings 0).files ≡ FileOutcome.written
      → Uploaded
          (serve services.rom (in_zeros earlier))
          (joined_all batches)
          (run es (main_daemon driver services)).0.world.rom
  main-Uploaded services es earlier requests batches first last valid each are begins carry ends
        some_byte fits ok =
      let before = serve services.rom (in_zeros earlier) in
      let session : List (Bytes × Bytes) =
        (first, zeros) ∷ (in_zeros requests ++ ((last, zeros) ∷ [])) in
      let ((file, stored, is_image), bridge) =
        session_stores before batches (in_zeros requests) first zeros last zeros begins carry ends
          some_byte fits ok in
      let path : (run es (main_daemon driver services)).0.world.rom ≡ serve before session =
        ap (λ w. w.rom) (main-services driver services es valid each)
        ∙ ap (λ ps. serve services.rom (in_zeros ps)) are
        ∙ ap (serve services.rom) (in_zeros-append earlier (first ∷ (requests ++ (last ∷ []))))
        ∙ serve-append services.rom (in_zeros earlier)
            (in_zeros (first ∷ (requests ++ (last ∷ []))))
        ∙ ap (λ rs. serve before ((first, zeros) ∷ rs)) (in_zeros-append requests (last ∷ [])) in
      record {
        file = file;
        stored = ap (λ (s : RomService). s.writer.output) path ∙ stored;
        is_image = is_image;
        bridge_asked = ap (λ (s : RomService). s.mdr_bridge) path ∙ bridge;
      }
