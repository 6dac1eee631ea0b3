-- ===== src/Daemon/Fresh/Runs.antt =====
-- Runs of the daemon against the server without buffers.
use ocp_canopy_open_bmc.Common.{
  ◌≡◌, refl, ap, ap₂, sym, ◌∙◌, true, false, if-intro, subst, List, [], ◌∷◌, ◌++◌, Bytes, All,
}
use ocp_canopy_open_bmc.Daemon.{
  ReadResult, Handlers, got, nothing, read_error, Event, signal, read, Output, ChifDaemon, step,
  stop, loop, run,
}
use ocp_canopy_open_bmc.Daemon.Handlers.{IsReady, retuned-IsReady}
use ocp_canopy_open_bmc.Daemon.Replies.{PacketEvent, step-IsReady}
use ocp_canopy_open_bmc.Daemon.Fresh.{packets_read, packets_sent, fresh_serve, IsBlind, served_for}
use ocp_canopy_open_bmc.Daemon.Fresh.Rounds.{packets_sent-append, step-Serves}

module _ {World : Type 0} (Inv : World → Type 0) where
  -- What a run leaves and sends, against what the server does.
  record SameAs (out : ChifDaemon World × List Output) (served : World × List Bytes) : Type 0 where
    world_is : out.0.world ≡ served.0
    sends : packets_sent out.1 ≡ served.1

  loop-stopped :
      (es : List Event) (d : ChifDaemon World)
      → d.running ≡ false
      → SameAs (loop es d) (d.world, [])
  unfolding loop stop
  loop-stopped [] d down = record { world_is = refl; sends = refl }
  loop-stopped (signal ∷ es) d down =
      let later = loop-stopped es (stop d) refl in
      record { world_is = later.world_is; sends = later.sends }
  loop-stopped (read r ∷ es) d down = rw down (record { world_is = refl; sends = refl })

  -- The server on what a read gives and then on the rest.
  fresh-read :
      (handlers : Handlers World) (r : ReadResult) (es : List Event) (w : World)
      → let (w', now) = served_for handlers r w in
        let (last, later) = fresh_serve handlers (packets_read es) w' in
        fresh_serve handlers (packets_read (read r ∷ es)) w ≡ (last, now ++ later)
  fresh-read handlers nothing es w = refl
  fresh-read handlers (read_error errno) es w = refl
  fresh-read handlers (got packet) es w = refl

  loop-SameAs :
      (es : List Event) (d : ChifDaemon World)
      → d.running ≡ true
      → All PacketEvent es
      → IsReady Inv d
      → All IsBlind d.handlers
      → SameAs (loop es d) (fresh_serve d.handlers (packets_read es) d.world)
  unfolding loop stop
  loop-SameAs [] d up each ready blind = record { world_is = refl; sends = refl }
  loop-SameAs (signal ∷ es) d up each ready blind =
      let later = loop-stopped es (stop d) refl in
      record { world_is = later.world_is; sends = later.sends }
  loop-SameAs (read r ∷ es) d up each ready blind =
      let now = step-Serves Inv r d each.0 ready blind in
      let after : ChifDaemon World = (step r d).0 in
      let later : SameAs (loop es after)
          (fresh_serve after.handlers (packets_read es) after.world) =
        loop-SameAs es after (now.same_running ∙ up) each.1 (step-IsReady Inv r d each.0 ready)
          (subst (All IsBlind) (sym now.same_handlers) blind) in
      let served = served_for d.handlers r d.world in
      let rest : fresh_serve after.handlers (packets_read es) after.world
          ≡ fresh_serve d.handlers (packets_read es) served.0 =
        ap₂ (λ handlers w. fresh_serve handlers (packets_read es) w) now.same_handlers
          now.world_is in
      let whole = fresh-read d.handlers r es d.world in
      if-intro
        (λ (out : ChifDaemon World × List Output).
          SameAs out (fresh_serve d.handlers (packets_read (read r ∷ es)) d.world))
        d.running
        (λ _. record {
          world_is = later.world_is ∙ ap (λ o. o.0) rest ∙ sym (ap (λ o. o.0) whole);
          sends =
              packets_sent-append (step r d).1 (loop es after).1
              ∙ ap₂ ◌++◌ now.sends (later.sends ∙ ap (λ o. o.1) rest)
              ∙ sym (ap (λ o. o.1) whole);
        })
        (λ down. cc)

  -- Take handlers that, by an invariant of what they share, answer packets of at most 4096 bytes
  -- with replies of 8 to 4096 bytes or not at all, and whose effect on what they share does not
  -- depend on what the response buffer holds. A run of the daemon on any row of signals and of
  -- reads that fail or return at most 4096 bytes sends exactly the packets, and leaves what the
  -- handlers share exactly so, as a server without buffers does for the packets read before the
  -- first signal, which hands each to the handler of its service with a buffer of zeros. So
  -- nothing of an earlier packet or answer gets into a later one through the buffers, and errors
  -- of reads change nothing but the pauses.
  pub run-fresh_serve :
      (es : List Event) (d : ChifDaemon World)
      → All PacketEvent es
      → IsReady Inv d
      → All IsBlind d.handlers
      → let served = fresh_serve d.handlers (packets_read es) d.world in
        (packets_sent (run es d).1 ≡ served.1) × ((run es d).0.world ≡ served.0)
  unfolding run
  run-fresh_serve es d each ready blind =
      let same =
        loop-SameAs es
          (record d { running = true; consecutive_errors = 0; error_retry_counter = 0 }) refl each
          (retuned-IsReady Inv d true 0 0 ready) blind in
      (same.sends, same.world_is)
