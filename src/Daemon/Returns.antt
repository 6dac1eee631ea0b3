-- ===== src/Daemon/Returns.antt =====
-- When `run` returns: the flag is down behind a row of events or of rounds when a signal took it down.
use ocp_canopy_open_bmc.Common.{
  ◌+◌, ◌≡◌, refl, ap, sym, ◌∙◌, Bool, true, false, not, ◌||◌, ltb, leb, ◌==◌, if-intro, Option,
  none, some, List, [], ◌∷◌, Bytes, length,
}
use ocp_canopy_open_bmc.Packet.{header_size, max_packet_size}
use ocp_canopy_open_bmc.Daemon.{
  ServiceHandler, ReadResult, got, nothing, read_error, Event, signal, read, Output, ChifDaemon,
  on_error, on_packet, on_read, step, stop, loop, run, eintr, max_consecutive_errors,
}
use ocp_canopy_open_bmc.Daemon.Channel.{Channel, write_all, channel_loop, channel_run}

-- Whether there is a signal in a row of events, and in a row of rounds.
abbrev pub is_stopped : List Event → Bool
is_stopped [] = false
is_stopped (signal ∷ es) = true
is_stopped (read r ∷ es) = is_stopped es

abbrev pub is_signalled : List Bool → Bool
is_signalled [] = false
is_signalled (signalled ∷ more) = signalled || is_signalled more

not-not : (b : Bool) → not (not b) ≡ b
not-not true = refl
not-not false = refl

module _ {World : Type 0} where
  abbrev Keeps : Bool → ChifDaemon World × List Output → Type 0
  Keeps flag out = out.0.running ≡ flag

  on_packet-running :
      (handler : Option (ServiceHandler World)) (request : Bytes) (d : ChifDaemon World)
      → Keeps d.running (on_packet handler request d)
  unfolding on_packet
  on_packet-running none request d = refl
  on_packet-running (some h) request d = refl

  -- A round leaves the flag as it is.
  step-running : (r : ReadResult) (d : ChifDaemon World) → Keeps d.running (step r d)
  unfolding step on_error on_read
  step-running nothing d = refl
  step-running (read_error errno) d =
      if-intro (Keeps d.running) (errno == eintr) (λ _. refl)
        (λ _.
          if-intro (Keeps d.running) (leb max_consecutive_errors (d.consecutive_errors + 1))
            (λ _. refl) (λ _. refl))
  step-running (got []) d = refl
  step-running (got (b ∷ bs)) d =
      if-intro (Keeps d.running) (ltb (length (b ∷ bs)) header_size) (λ _. refl)
        (λ _. on_packet-running _ _ _)

  loop-stopped :
      (es : List Event) (d : ChifDaemon World) → d.running ≡ false → Keeps false (loop es d)
  unfolding loop stop
  loop-stopped [] d down = down
  loop-stopped (signal ∷ es) d down = loop-stopped es (stop d) refl
  loop-stopped (read r ∷ es) d down =
      if-intro (Keeps false) d.running (λ up. absurd (cc (sym up ∙ down))) (λ _. down)

  loop-running :
      (es : List Event) (d : ChifDaemon World)
      → d.running ≡ true
      → Keeps (not (is_stopped es)) (loop es d)
  unfolding loop stop
  loop-running [] d up = up
  loop-running (signal ∷ es) d up = loop-stopped es (stop d) refl
  loop-running (read r ∷ es) d up =
      if-intro (Keeps (not (is_stopped es))) d.running
        (λ _. loop-running es (step r d).0 (step-running r d ∙ up))
        (λ down. absurd (cc (sym up ∙ down)))

  -- `run` has returned when there is a signal among its events.
  pub run-returned :
      (es : List Event) (d : ChifDaemon World) → not (run es d).0.running ≡ is_stopped es
  unfolding run
  run-returned es d = ap not (loop-running es _ refl) ∙ not-not (is_stopped es)

module _ {State World : Type 0} (channel : Channel State) where
  channel_loop-running :
      (rounds : List Bool) (d : ChifDaemon World) (k : State)
      → d.running ≡ true
      → (channel_loop channel rounds d k).0.0.running ≡ not (is_signalled rounds)
  unfolding channel_loop stop
  channel_loop-running [] d k up = up
  channel_loop-running (true ∷ more) d k up = refl
  channel_loop-running (false ∷ more) d k up =
      let (result, k') = channel.read_into max_packet_size k in
      let now = step result d in
      if-intro
        (λ (out : (ChifDaemon World × List Output) × State).
          out.0.0.running ≡ not (is_signalled more))
        d.running
        (λ _.
          channel_loop-running more now.0 (write_all channel now.1 k') (step-running result d ∙ up))
        (λ down. absurd (cc (sym up ∙ down)))

  pub channel_run-returned :
      (rounds : List Bool) (d : ChifDaemon World) (k : State)
      → not (channel_run channel rounds d k).0.0.running ≡ is_signalled rounds
  unfolding channel_run
  channel_run-returned rounds d k =
      ap not (channel_loop-running rounds _ k refl) ∙ not-not (is_signalled rounds)
