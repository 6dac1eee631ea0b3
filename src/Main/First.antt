-- ===== src/Main/First.antt =====
-- The first packet of a run, when it is one for the SMIF service.
use ocp_canopy_open_bmc.Common.{
  ℕ, ◌≤◌, ◌≡◌, ap, ◌∙◌, true, false, ◌==◌, ltb, Bool-cases, inl, inr, some, List, [], ◌∷◌, ◌++◌,
  arith, Bytes, length, take, All,
}
use ocp_canopy_open_bmc.Packet.{parse_header, smif_service_id}
use ocp_canopy_open_bmc.Packet.Frame.{put_frame}
use ocp_canopy_open_bmc.Smif.I2c.{I2cDriver}
use ocp_canopy_open_bmc.Smif.Service.{handle}
use ocp_canopy_open_bmc.Smif.Service.State.{next, handle-next}
use ocp_canopy_open_bmc.Daemon.Fresh.Rounds.{length-zeros}
use ocp_canopy_open_bmc.Daemon.{Event, outputs_of, find_handler, register_handler, run}
use ocp_canopy_open_bmc.Daemon.Handlers.{outputs_of-frame}
use ocp_canopy_open_bmc.Daemon.Replies.{PacketEvent}
use ocp_canopy_open_bmc.Daemon.Fresh.{packets_read, packets_sent, zeros, fresh_round, fresh_serve}
use ocp_canopy_open_bmc.Main.{Services, registered, main_daemon}
use ocp_canopy_open_bmc.Main.Whole.{StoreValid}
use ocp_canopy_open_bmc.Main.Apart.{is_for, main-sent}

only_smif : (id : ℕ) → (0 == id) ≡ true → (2 == id) ≡ false
only_smif id is_smif = ground arith

-- What such a packet leaves.
pub round-next :
    {World : Type 0} (driver : I2cDriver World) (services : Services World) (packet : Bytes)
    → is_for smif_service_id packet ≡ true
    → (fresh_round (registered driver) packet services).0
      ≡ record services { smif = next driver services.smif packet }
unfolding registered register_handler find_handler
round-next driver services packet mine =
    let id = (parse_header packet).service_id in
    elim (Bool-cases (ltb (length packet) 8)) [
      | inl short ↦ absurd (cc (rw short at mine))
      | inr long ↦
          let is_smif : (0 == id) ≡ true = rw long at mine in
          let left = handle-next driver services.smif packet zeros (omega (arith, length-zeros)) in
          rw (long, only_smif id is_smif, is_smif)
            (ap (λ s. record services { smif = s }) (rw long at left))
    ]

module _ {World : Type 0} (driver : I2cDriver World) (services : Services World) (packet : Bytes)
    (frame : Bytes) (mine : is_for smif_service_id packet ≡ true)
    (answers : (handle driver services.smif packet zeros).0 ≡ put_frame (some frame) zeros)
    (has_header : 8 ≤ length frame) where
  pub round-frame : (fresh_round (registered driver) packet services).1 ≡ frame ∷ []
  unfolding registered register_handler find_handler
  round-frame =
      let id = (parse_header packet).service_id in
      elim (Bool-cases (ltb (length packet) 8)) [
        | inl short ↦ absurd (cc (rw short at mine))
        | inr long ↦
            let is_smif : (0 == id) ≡ true = rw long at mine in
            rw (long, only_smif id is_smif, is_smif)
              (ap (λ handled. packets_sent (outputs_of handled)) answers
                ∙ ap packets_sent (outputs_of-frame frame zeros has_header))
      ]

  -- The daemon of `main` sends that frame first.
  pub first-sent :
      (es : List Event) (packets : List Bytes)
      → StoreValid driver services
      → All PacketEvent es
      → packets_read es ≡ packet ∷ packets
      → take 1 (packets_sent (run es (main_daemon driver services)).1) ≡ frame ∷ []
  first-sent es packets valid each reads =
      let later =
        fresh_serve (registered driver) packets
          (fresh_round (registered driver) packet services).0 in
      ap (take 1) (
        main-sent driver services es valid each
        ∙ ap (λ ps. (fresh_serve (registered driver) ps services).1) reads
        ∙ ap (λ (now : List Bytes). now ++ later.1) round-frame)
