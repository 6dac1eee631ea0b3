-- ===== src/Main/Device.antt =====
-- src/main.cpp: `DeviceChannel`, and `main` from opening the device to closing it.
--
-- The kernel is what its calls do in some state of the machine behind them.
use ocp_canopy_open_bmc.Common.{
  ℕ, ◌≡◌, Bool, true, false, not, if◌then◌else◌, Option, none, some, List, [], ℤ, pos, negsuc,
  Bytes,
}
use ocp_canopy_open_bmc.Smif.I2c.{I2cDriver}
use ocp_canopy_open_bmc.Daemon.{ReadResult, ChifDaemon, Event, Output, run}
use ocp_canopy_open_bmc.Daemon.Replies.{Replies}
use ocp_canopy_open_bmc.Daemon.Channel.{Channel, Within, started, channel_run, met}
use ocp_canopy_open_bmc.Daemon.Returns.{is_signalled}
use ocp_canopy_open_bmc.Main.{Services}
use ocp_canopy_open_bmc.Main.Boot.{
  Exit, exited, aborted, still_running, exit_behind, Machine, Fuel, boot, signals,
}

-- The system calls on the device; `open_device` is the call for `chifDevice`.
pub record Kernel (State : Type 0) : Type 0 where
  pub open_device : State → ℤ × State
  pub read_fd : ℤ → ℕ → State → ReadResult × State
  pub write_fd : ℤ → Bytes → State → ℤ × State
  pub close_fd : ℤ → State → State

-- A read fills the buffer that it is given at most, with bytes.
abbrev pub IsKernel : {State : Type 0} → Kernel State → Type 0
IsKernel {State} kernel = (fd : ℤ) (size : ℕ) (k : State) → Within size (kernel.read_fd fd size k).0

-- `DeviceChannel`
pub record DeviceChannel : Type 0 where
  pub fd : ℤ

-- The tests `fd < 0` and `fd_ >= 0`.
abbrev pub is_open : ℤ → Bool
is_open (pos n) = true
is_open (negsuc n) = false

module _ {State : Type 0} (kernel : Kernel State) where
  -- `DeviceChannel::read` and `DeviceChannel::write`
  unfoldable pub device_channel : DeviceChannel → Channel State
  device_channel c = record { read_into = kernel.read_fd c.fd; write_out = kernel.write_fd c.fd }

  -- `~DeviceChannel`
  unfoldable pub destroy : DeviceChannel → State → State
  destroy c k = if is_open c.fd then kernel.close_fd c.fd k else k

  -- So many rounds of `run` on the channel, and what `main` does behind it, once it has returned.
  unfoldable pub device_run :
      {World : Type 0}
      → DeviceChannel
      → Option (ChifDaemon (Services World))
      → List Bool
      → State
      → Option ((Exit × List Output) × State)
  device_run c none rounds k = none
  device_run c (some daemon) rounds k =
      let out = channel_run (device_channel c) rounds daemon k in
      let returned = not out.0.0.running in
      some ((exit_behind returned, out.0.1), if returned then destroy c out.1 else out.1)

  -- `main`, with the signals ahead of `run` and, for each round of its loop, whether there is one.
  unfoldable pub device_main :
      {World : Type 0}
      → I2cDriver World
      → Fuel
      → Machine World
      → ℕ
      → List Bool
      → State
      → Option ((Exit × List Output) × State)
  device_main driver fuel m early rounds k =
      let (fd, k') = kernel.open_device k in
      let ran = device_run (record { fd = fd }) (signals early (boot driver fuel m)) rounds k' in
      if is_open fd
      then (if m.gets_name then ran else some ((aborted, []), k'))
      else some ((exited 1, []), k')

-- How `main` ends on a kernel, with what it built and what opening the device gave. When the device
-- opens and the D-Bus gives the name: with exit code 0 and the device closed behind the rounds of
-- the daemon, when there is a signal ahead of one of them; without a signal it has not ended behind
-- them, and the device is as they leave it. When the D-Bus does not give the name: by an exception,
-- with nothing done to the open device. When the device does not open: with exit code 1 and nothing
-- done to it. What the daemon sends replies to the events that its rounds meet.
pub record Ends {State World : Type 0} (kernel : Kernel State) (rounds : List Bool) (named : Bool)
    (built : Option (ChifDaemon (Services World))) (opened : ℤ × State)
    (o : Option ((Exit × List Output) × State)) : Type 0 where
  pub daemon : ChifDaemon (Services World)
  pub builds : built ≡ some daemon
  pub events : List Event
  pub meets :
      events
      ≡ met (device_channel kernel (record { fd = opened.0 })) rounds (started daemon) opened.1
  pub outputs : List Output
  pub left : State
  pub runs :
      channel_run (device_channel kernel (record { fd = opened.0 })) rounds daemon opened.1
      ≡ (((run events daemon).0, outputs), left)
  pub returns :
      o
      ≡ some (
          if is_open opened.0
          then (if named
              then (if is_signalled rounds
                  then ((exited 0, outputs), kernel.close_fd opened.0 left)
                  else ((still_running, outputs), left))
              else ((aborted, []), opened.1))
          else ((exited 1, []), opened.1))
  pub replies : Replies events outputs
