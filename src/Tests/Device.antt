-- ===== src/Tests/Device.antt =====
-- The whole program on a kernel.
use ocp_canopy_open_bmc.Common.{
  ℕ, ◌+◌, ◌==◌, if◌then◌else◌, true, false, List, [], ◌∷◌, ◌++◌, pos, Bytes, Bool, length, take,
}
use ocp_canopy_open_bmc.Daemon.{got, read_error}
use ocp_canopy_open_bmc.Main.Device.{Kernel}

-- What a kernel has seen.
record Log : Type 0 where
  reads : ℕ
  written : List Bytes
  closed : ℕ

abbrev ping : Bytes
ping = 8 ∷ 0 ∷ 7 ∷ 1 ∷ 3 ∷ 0 ∷ 16 ∷ 1 ∷ []

-- The first read fails, the others give a packet.
abbrev kernel : Kernel Log
kernel = record {
  open_device = λ k. (pos 3, k);
  read_fd = λ fd size k. (
    if k.reads == 0 then read_error 5 else got (take size ping),
    record k { reads = k.reads + 1 },
  );
  write_fd = λ fd frame k. (pos (length frame), record k { written = k.written ++ (frame ∷ []) });
  close_fd = λ fd k. record k { closed = k.closed + 1 };
}

abbrev start : Log
start = record { reads = 0; written = []; closed = 0 }

abbrev rounds : List Bool
rounds = false ∷ false ∷ false ∷ true ∷ false ∷ []
