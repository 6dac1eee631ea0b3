-- ===== src/Main/Boot/Signals.antt =====
-- Signals between the installation of their handler and the call of `run`.
use ocp_canopy_open_bmc.Common.{ℕ, zero, suc, ◌≡◌, refl, ◌∙◌, Bool, Option, none, some, List}
use ocp_canopy_open_bmc.Smif.I2c.{I2cDriver}
use ocp_canopy_open_bmc.Daemon.{ChifDaemon, Event, stop, run}
use ocp_canopy_open_bmc.Main.{Services}
use ocp_canopy_open_bmc.Main.Boot.{Machine, Fuel, boot, signal_handler, signals, run_daemon, main}

module _ {World : Type 0} where
  run_daemon-signal_handler :
      (es : List Event) (daemon : Option (ChifDaemon (Services World)))
      → run_daemon es (signal_handler daemon) ≡ run_daemon es daemon
  unfolding run_daemon signal_handler run stop
  run_daemon-signal_handler es none = refl
  run_daemon-signal_handler es (some daemon) = refl

  -- What does not see one signal does not see many.
  pub signals-ignored :
      {A : Type 0} (f : Option (ChifDaemon (Services World)) → A)
      → ((daemon : Option (ChifDaemon (Services World))) → f (signal_handler daemon) ≡ f daemon)
      → (n : ℕ) (daemon : Option (ChifDaemon (Services World))) → f (signals n daemon) ≡ f daemon
  unfolding signals
  signals-ignored f ignores zero daemon = refl
  signals-ignored f ignores (suc n) daemon =
      signals-ignored f ignores n (signal_handler daemon) ∙ ignores daemon

  pub run_daemon-signals :
      (n : ℕ) (es : List Event) (daemon : Option (ChifDaemon (Services World)))
      → run_daemon es (signals n daemon) ≡ run_daemon es daemon
  run_daemon-signals n es daemon =
      signals-ignored (run_daemon es) (run_daemon-signal_handler es) n daemon

  -- Whatever the machine has: signals between the installation of their handler and the call of
  -- `run` are lost. `main` returns and writes what it does without them.
  pub main-signals :
      (driver : I2cDriver World) (opens : Bool) (fuel : Fuel) (m : Machine World) (early : ℕ)
      (es : List Event)
      → main opens driver fuel m early es ≡ main opens driver fuel m 0 es
  unfolding main signals
  main-signals driver opens fuel m early es =
      rw (run_daemon-signals early es (boot driver fuel m)) refl
