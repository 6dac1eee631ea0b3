-- ===== src/MdrBridge.antt =====
-- src/mdr_bridge.cpp: the call that asks the SMBIOS service to read its file again.
--
-- The D-Bus connection is the calls that were tried on it, and for each whether it goes through; an
-- exception of the connection is a call that does not.
use ocp_canopy_open_bmc.Common.{ℕ, Bool, List, [], ◌∷◌, ◌++◌, Bytes, length}

-- A method call: service, path, interface and method.
pub record MethodCall : Type 0 where
  pub service : Bytes
  pub path : Bytes
  pub interface : Bytes
  pub method : Bytes

-- `MdrBridge`, with its connection.
pub record MdrBridge : Type 0 where
  pub calls : List MethodCall
  pub goes_through : ℕ → Bool

-- "xyz.openbmc_project.Smbios.MDR_V2"
abbrev pub mdr_service : Bytes
mdr_service =
    120 ∷ 121 ∷ 122 ∷ 46 ∷ 111 ∷ 112 ∷ 101 ∷ 110 ∷ 98 ∷ 109 ∷ 99 ∷ 95 ∷ 112 ∷ 114 ∷ 111 ∷ 106 ∷ 101
    ∷ 99 ∷ 116 ∷ 46 ∷ 83 ∷ 109 ∷ 98 ∷ 105 ∷ 111 ∷ 115 ∷ 46 ∷ 77 ∷ 68 ∷ 82 ∷ 95 ∷ 86 ∷ 50 ∷ []

-- "/xyz/openbmc_project/Smbios/MDR_V2"
abbrev pub mdr_path : Bytes
mdr_path =
    47 ∷ 120 ∷ 121 ∷ 122 ∷ 47 ∷ 111 ∷ 112 ∷ 101 ∷ 110 ∷ 98 ∷ 109 ∷ 99 ∷ 95 ∷ 112 ∷ 114 ∷ 111 ∷ 106
    ∷ 101 ∷ 99 ∷ 116 ∷ 47 ∷ 83 ∷ 109 ∷ 98 ∷ 105 ∷ 111 ∷ 115 ∷ 47 ∷ 77 ∷ 68 ∷ 82 ∷ 95 ∷ 86 ∷ 50 ∷ []

-- "xyz.openbmc_project.Smbios.MDR_V2"
abbrev pub mdr_interface : Bytes
mdr_interface =
    120 ∷ 121 ∷ 122 ∷ 46 ∷ 111 ∷ 112 ∷ 101 ∷ 110 ∷ 98 ∷ 109 ∷ 99 ∷ 95 ∷ 112 ∷ 114 ∷ 111 ∷ 106 ∷ 101
    ∷ 99 ∷ 116 ∷ 46 ∷ 83 ∷ 109 ∷ 98 ∷ 105 ∷ 111 ∷ 115 ∷ 46 ∷ 77 ∷ 68 ∷ 82 ∷ 95 ∷ 86 ∷ 50 ∷ []

-- "AgentSynchronizeData"
abbrev pub agent_synchronize_data : MethodCall
agent_synchronize_data = record {
  service = mdr_service;
  path = mdr_path;
  interface = mdr_interface;
  method =
      65 ∷ 103 ∷ 101 ∷ 110 ∷ 116 ∷ 83 ∷ 121 ∷ 110 ∷ 99 ∷ 104 ∷ 114 ∷ 111 ∷ 110 ∷ 105 ∷ 122 ∷ 101
      ∷ 68 ∷ 97 ∷ 116 ∷ 97 ∷ [];
}

-- `synchronize`
unfoldable pub synchronize : MdrBridge → Bool × MdrBridge
synchronize b =
    (b.goes_through (length b.calls), record b { calls = b.calls ++ (agent_synchronize_data ∷ []) })
