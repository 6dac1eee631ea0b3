-- ===== src/Main/Apart.antt =====
-- The three services in one daemon: each of them sees the packets of its own service only.
use ocp_canopy_open_bmc.Common.{
  ℕ, ◌≡◌, refl, ap, ap₂, sym, ◌∙◌, Bool, true, false, ltb, not, ◌&&◌, ◌==◌, if◌then◌else◌,
  Bool-cases, inl, inr, List, [], ◌∷◌, arith, Bytes, length, All,
}
use ocp_canopy_open_bmc.Packet.{parse_header, rom_service_id, smif_service_id}
use ocp_canopy_open_bmc.Rom
use ocp_canopy_open_bmc.Rom.{RomService}
use ocp_canopy_open_bmc.Rom.Session.{serve}
use ocp_canopy_open_bmc.Smif.I2c.{I2cDriver}
use ocp_canopy_open_bmc.Smif.Service.{SmifService}
use ocp_canopy_open_bmc.Smif.Service.State.{next, handle-next}
use ocp_canopy_open_bmc.Daemon.{Event, find_handler, register_handler, run}
use ocp_canopy_open_bmc.Daemon.Replies.{PacketEvent}
use ocp_canopy_open_bmc.Daemon.Fresh.{
  packets_read, packets_sent, zeros, fresh_round, fresh_serve, IsBlind,
}
use ocp_canopy_open_bmc.Daemon.Fresh.Rounds.{length-zeros}
use ocp_canopy_open_bmc.Daemon.Fresh.Runs.{run-fresh_serve}
use ocp_canopy_open_bmc.Main.{Services, registered, main_daemon}
use ocp_canopy_open_bmc.Main.Whole.{StoreValid, main_daemon-IsReady}

-- A packet with a header that names this service.
abbrev pub is_for : ℕ → Bytes → Bool
is_for id packet = not (ltb (length packet) 8) && (id == (parse_header packet).service_id)

abbrev pub packets_for : ℕ → List Bytes → List Bytes
packets_for id [] = []
packets_for id (packet ∷ packets) =
    if is_for id packet then packet ∷ packets_for id packets else packets_for id packets

-- Requests, each with a buffer of zeros.
abbrev pub in_zeros : List Bytes → List (Bytes × Bytes)
in_zeros [] = []
in_zeros (packet ∷ packets) = (packet, zeros) ∷ in_zeros packets

rom-blind :
    (s : RomService) (packet first second : Bytes)
    → (Rom.handle s packet first).1 ≡ (Rom.handle s packet second).1
unfolding Rom.handle Rom.dispatch Rom.handle_begin Rom.handle_record Rom.handle_blob Rom.handle_end
rom-blind s packet first second = ground arith

only_rom : (id : ℕ) → (2 == id) ≡ true → (0 == id) ≡ false
only_rom id is_rom = ground arith

module _ {World : Type 0} (driver : I2cDriver World) where
  -- The SMIF service behind a row of packets.
  abbrev pub next_all : SmifService World → List Bytes → SmifService World
  next_all s [] = s
  next_all s (packet ∷ packets) = next_all (next driver s packet) packets

  registered-IsBlind : All IsBlind (registered driver)
  unfolding registered register_handler
  registered-IsBlind = (
    λ w packet response size.
        ap (λ s. record w { rom = s }) (rom-blind w.rom packet response zeros),
    (
      λ w packet response size.
          ap (λ s. record w { smif = s })
            (handle-next driver w.smif packet response (omega (arith, size))
              ∙ sym (handle-next driver w.smif packet zeros (omega (arith, length-zeros)))),
      (λ w packet response size. refl, tt),
    ),
  )

  abbrev rom_next : RomService → Bytes → RomService
  rom_next s packet = if is_for rom_service_id packet then (Rom.handle s packet zeros).1 else s

  abbrev smif_next : SmifService World → Bytes → SmifService World
  smif_next s packet = if is_for smif_service_id packet then next driver s packet else s

  round-services :
      (packet : Bytes) (w : Services World)
      → (fresh_round (registered driver) packet w).0
        ≡ record { rom = rom_next w.rom packet; smif = smif_next w.smif packet }
  unfolding registered register_handler find_handler
  round-services packet w =
      let id = (parse_header packet).service_id in
      elim (Bool-cases (ltb (length packet) 8)) [
        | inl short ↦ rw short refl
        | inr long ↦ elim (Bool-cases (2 == id)) [
          | inl is_rom ↦ let not_smif = only_rom id is_rom in rw (long, is_rom, not_smif) refl
          | inr not_rom ↦ elim (Bool-cases (0 == id)) [
            | inl is_smif ↦
                rw (long, not_rom, is_smif)
                  (ap (λ s. record w { smif = s })
                    (rw long at
                      (handle-next driver w.smif packet zeros (omega (arith, length-zeros)))))
            | inr not_smif ↦ elim (Bool-cases (16 == id)) [
              | inl is_health ↦ rw (long, not_rom, not_smif, is_health) refl
              | inr not_health ↦ rw (long, not_rom, not_smif, not_health) refl
            ]
          ]
        ]
      ]

  serve-next :
      (packet : Bytes) (packets : List Bytes) (s : RomService)
      → serve (rom_next s packet) (in_zeros (packets_for rom_service_id packets))
        ≡ serve s (in_zeros (packets_for rom_service_id (packet ∷ packets)))
  serve-next packet packets s = elim (Bool-cases (is_for rom_service_id packet)) [
    | inl mine ↦ rw mine refl
    | inr other ↦ rw other refl
  ]

  next_all-next :
      (packet : Bytes) (packets : List Bytes) (s : SmifService World)
      → next_all (smif_next s packet) (packets_for smif_service_id packets)
        ≡ next_all s (packets_for smif_service_id (packet ∷ packets))
  next_all-next packet packets s = elim (Bool-cases (is_for smif_service_id packet)) [
    | inl mine ↦ rw mine refl
    | inr other ↦ rw other refl
  ]

  serve-services :
      (packets : List Bytes) (w : Services World)
      → (fresh_serve (registered driver) packets w).0 ≡ record {
        rom = serve w.rom (in_zeros (packets_for rom_service_id packets));
        smif = next_all w.smif (packets_for smif_service_id packets);
      }
  serve-services [] w = refl
  serve-services (packet ∷ packets) w =
      ap (λ w. (fresh_serve (registered driver) packets w).0) (round-services packet w)
      ∙ serve-services packets
          (record { rom = rom_next w.rom packet; smif = smif_next w.smif packet })
      ∙ ap₂ (λ rom smif. record { rom = rom; smif = smif }) (serve-next packet packets w.rom)
          (next_all-next packet packets w.smif)

  -- The services that a run of the daemon of `main` leaves, from a store within its limits or none,
  -- for any row of signals and of reads that fail or return at most 4096 bytes: the ROM service
  -- has done what it does for the packets that name it, in order, and so has the SMIF service for
  -- those that name it, of the packets read before the first signal. What comes between, the
  -- packets of other services, those without a header, failing reads, does not matter, nor does
  -- what the daemon's buffers hold.
  pub main-services :
      (services : Services World) (es : List Event)
      → StoreValid driver services
      → All PacketEvent es
      → (run es (main_daemon driver services)).0.world ≡ record {
        rom = serve services.rom (in_zeros (packets_for rom_service_id (packets_read es)));
        smif = next_all services.smif (packets_for smif_service_id (packets_read es));
      }
  unfolding main_daemon
  main-services services es valid each =
      (run-fresh_serve (StoreValid driver) es (main_daemon driver services) each
        (main_daemon-IsReady driver services valid) registered-IsBlind).1
      ∙ serve-services (packets_read es) services

  -- What such a run sends is what the server without buffers answers.
  pub main-sent :
      (services : Services World) (es : List Event)
      → StoreValid driver services
      → All PacketEvent es
      → packets_sent (run es (main_daemon driver services)).1
        ≡ (fresh_serve (registered driver) (packets_read es) services).1
  unfolding main_daemon
  main-sent services es valid each =
      (run-fresh_serve (StoreValid driver) es (main_daemon driver services) each
        (main_daemon-IsReady driver services valid) registered-IsBlind).0
