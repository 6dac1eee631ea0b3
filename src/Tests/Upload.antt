-- ===== src/Tests/Upload.antt =====
-- The SMBIOS writer and the ROM service at concrete inputs.
use ocp_canopy_open_bmc.Common.{
  ℕ, false, All, ◌≡◌, refl, true, none, some, List, [], ◌∷◌, ◌++◌, arith, Bytes, inr, replicate,
  length, take,
}
use ocp_canopy_open_bmc.Packet.{parse_header, payload}
use ocp_canopy_open_bmc.Smbios.{
  FileOutcome, Writer, Smbios3EntryPoint, add_record, finalize, write_files, image,
}
use ocp_canopy_open_bmc.Smbios.Blob.{
  blob_of, accepted, Extends, add_record-blob_of, add_record-Extends,
}
use ocp_canopy_open_bmc.Smbios.Image.{IsImage, Whole, finalize_outcome, finalize-IsImage}
use ocp_canopy_open_bmc.Rom.{RomService, handle_end, dispatch, handle}
use ocp_canopy_open_bmc.Rom.Session.{serve, joined_all}
use ocp_canopy_open_bmc.Smif.I2c.{I2cDriver, failed}
use ocp_canopy_open_bmc.Daemon.{Event, signal, read, got, read_error, run}
use ocp_canopy_open_bmc.Daemon.Replies.{PacketEvent}
use ocp_canopy_open_bmc.Main.{Services, main_daemon}
use ocp_canopy_open_bmc.Main.Apart.{in_zeros}
use ocp_canopy_open_bmc.Main.Upload.{Uploaded, main-Uploaded}

abbrev records : List Bytes
records = (127 ∷ 4 ∷ 0 ∷ 0 ∷ 0 ∷ 0 ∷ []) ∷ (1 ∷ 2 ∷ 3 ∷ []) ∷ []

abbrev junk : Bytes
junk = 9 ∷ []

abbrev writer : Writer
writer = record {
  records = 5 ∷ 6 ∷ [];
  directory_version = 255;
  output = none;
  surroundings = λ n. record { files = FileOutcome.written; epoch = 1700000000 };
}

abbrev service : RomService
service = record {
  writer = writer;
  mdr_bridge = some (record { calls = []; goes_through = λ n. true });
}

abbrev anchored : Smbios3EntryPoint
anchored = record {
  anchor_string = 95 ∷ 83 ∷ 77 ∷ 51 ∷ 95 ∷ [];
  checksum = 0;
  entry_point_length = 24;
  smbios_major = 3;
  smbios_minor = 3;
  smbios_docrev = 0;
  entry_point_revision = 1;
  reserved = 0;
  structure_table_max_size = 70000;
  structure_table_address = 0;
}

abbrev first_packet : Bytes
first_packet = 8 ∷ 0 ∷ 1 ∷ 0 ∷ 3 ∷ 0 ∷ 2 ∷ 1 ∷ []

abbrev blob_packet : Bytes
blob_packet = 25 ∷ 0 ∷ 2 ∷ 0 ∷ 12 ∷ 0 ∷ 2 ∷ 1 ∷ blob_of records

abbrev last_packet : Bytes
last_packet = 8 ∷ 0 ∷ 3 ∷ 0 ∷ 5 ∷ 0 ∷ 2 ∷ 1 ∷ []

abbrev blank : Bytes
blank = replicate 8 0

add_record-blob_of_example : add_record (blob_of records ++ junk) writer ≡ record writer {
  records = writer.records ++ accepted (length writer.records) (take 1000 records);
}
add_record-blob_of_example =
    add_record-blob_of records junk writer
      ((omega arith, omega arith), ((omega arith, omega arith), tt)) (omega arith) (omega arith)

add_record-Extends_example : Extends writer.records (add_record junk writer).records
add_record-Extends_example = add_record-Extends junk writer (omega arith)

finalize_outcome_example :
    ((finalize writer).0 ≡ true)
    × ((finalize writer).1.output ≡ some (image 0 1700000000 writer.records))
    × ((finalize writer).1.directory_version ≡ 0)
    × ((finalize writer).1.records ≡ writer.records)
finalize_outcome_example = finalize_outcome writer

-- The flush fails when the stream is closed: 20 bytes are out.
abbrev cut_writer : Writer
cut_writer = record writer {
  surroundings = λ n. record { files = FileOutcome.cut_short 20; epoch = 1700000000 };
}

cut_done : (finalize cut_writer).0 ≡ true
cut_done = (finalize_outcome cut_writer).0

finalize-IsImage_example :
    (file : Bytes) × IsImage file 0 1700000000 cut_writer.records
    × Whole (FileOutcome.cut_short 20) file (finalize cut_writer).1.output
finalize-IsImage_example = finalize-IsImage cut_writer (omega arith) cut_done

-- A packet for the health service.
abbrev health_packet : Bytes
health_packet = 8 ∷ 0 ∷ 7 ∷ 1 ∷ 3 ∷ 0 ∷ 16 ∷ 1 ∷ []

-- The upload, with other events in between.
abbrev upload_events : List Event
upload_events =
    read (got last_packet)
    ∷ read (got first_packet)
    ∷ read (got health_packet)
    ∷ read (read_error 5)
    ∷ read (got blob_packet)
    ∷ read (got last_packet)
    ∷ signal
    ∷ read (got first_packet)
    ∷ []

abbrev no_bus : I2cDriver ℕ
no_bus = record { opens = λ w bus. false; transfer = λ w bus messages. (failed 5, w) }

abbrev services : Services ℕ
services = record {
  rom = service;
  smif = record { ev_storage = none; segment_to_bus = []; world = 0 };
}

upload_events-PacketEvent : All PacketEvent upload_events
upload_events-PacketEvent = ground arith

main-Uploaded_example :
    Uploaded
      (serve service (in_zeros (last_packet ∷ [])))
      (joined_all (records ∷ []))
      (run upload_events (main_daemon no_bus services)).0.world.rom
unfolding parse_header payload handle dispatch handle_end finalize write_files
main-Uploaded_example =
    main-Uploaded no_bus services upload_events (last_packet ∷ []) (blob_packet ∷ []) (records ∷ [])
      first_packet last_packet tt upload_events-PacketEvent refl (omega arith, refl)
      (
        record {
          command = inr (omega arith, refl);
          blob = refl;
          well_formed = ((omega arith, omega arith), ((omega arith, omega arith), tt));
          some_record = omega arith;
          few_records = omega arith;
        },
        tt,
      )
      (omega arith, refl) (omega arith) (omega arith) refl
