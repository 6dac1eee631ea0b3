-- ===== src/Tests.antt =====
-- Runs of the code on concrete inputs.
mod Upload
mod Store
mod Proxy
mod Rounds
mod Flash
mod PlatDef
mod Sysfs
mod Boot
mod Restart
mod Enumerate
mod Transfer
mod Device
