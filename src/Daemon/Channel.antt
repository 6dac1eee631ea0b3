-- ===== src/Daemon/Channel.antt =====
-- src/packet.hpp and src/chif_daemon.cpp: the channel of the daemon, and its loop over a channel in
-- place of a row of events.
use ocp_canopy_open_bmc.Common.{
  ℕ, ◌≤◌, ◌≡◌, refl, ap, sym, ◌∙◌, Bool, true, false, if◌then◌else◌, if-ap, if-intro, List, [], ◌∷◌,
  ◌++◌, ℤ, Bytes, IsBytes, length, All,
}
use ocp_canopy_open_bmc.Packet.{max_packet_size}
use ocp_canopy_open_bmc.Daemon.{
  ReadResult, got, nothing, read_error, Event, signal, read, Output, sent, ChifDaemon, step, stop,
  loop,
}
use ocp_canopy_open_bmc.Daemon.Replies.{PacketEvent}

-- `Channel`, in some state of what is behind it: reads into a buffer of a size, and writes.
pub record Channel (State : Type 0) : Type 0 where
  pub read_into : ℕ → State → ReadResult × State
  pub write_out : Bytes → State → ℤ × State

-- What a read may return: at most as many bytes as the buffer holds.
abbrev pub Within : ℕ → ReadResult → Type 0
Within size (got packet) = IsBytes packet × (length packet ≤ size)
Within size _ = Unit

abbrev pub IsChannel : {State : Type 0} → Channel State → Type 0
IsChannel {State} c = (size : ℕ) (k : State) → Within size (c.read_into size k).0

read-PacketEvent : (r : ReadResult) → Within max_packet_size r → PacketEvent (read r)
read-PacketEvent (got packet) within = within
read-PacketEvent nothing within = tt
read-PacketEvent (read_error errno) within = tt

if-if {ℓ} :
    {A : Type ℓ} (b : Bool) (x y : A)
    → (if b then (if b then x else y) else y) ≡ (if b then x else y)
if-if true x y = refl
if-if false x y = refl

module _ {State : Type 0} (channel : Channel State) where
  -- The writes of a round. The result of a write is only logged, and a pause is none.
  unfoldable pub write_all : List Output → State → State
  write_all [] k = k
  write_all (sent frame ∷ os) k = write_all os (channel.write_out frame k).1
  write_all (_ ∷ os) k = write_all os k

-- The start of `run`.
abbrev pub started : {World : Type 0} → ChifDaemon World → ChifDaemon World
started d = record d { running = true; consecutive_errors = 0; error_retry_counter = 0 }

module _ {State World : Type 0} (channel : Channel State) where
  -- So many rounds of the loop of `run`; the flag of a round says whether a signal comes ahead of
  -- its test of `running_`. The loop has returned when `running` is false behind them; while it is
  -- true, the loop goes on with further rounds.
  unfoldable pub channel_loop :
      List Bool → ChifDaemon World → State → (ChifDaemon World × List Output) × State
  channel_loop [] d k = ((d, []), k)
  channel_loop (signalled ∷ more) d k =
      let d' = (if signalled then stop d else d) in
      let (result, k') = channel.read_into max_packet_size k in
      let now = step result d' in
      let later = channel_loop more now.0 (write_all channel now.1 k') in
      if d'.running then ((later.0.0, now.1 ++ later.0.1), later.1) else ((d', []), k)

  -- `run`
  unfoldable pub channel_run :
      List Bool → ChifDaemon World → State → (ChifDaemon World × List Output) × State
  channel_run rounds d k = channel_loop rounds (started d) k

  -- The events that the rounds meet.
  abbrev pub met : List Bool → ChifDaemon World → State → List Event
  met [] d k = []
  met (true ∷ more) d k = signal ∷ []
  met (false ∷ more) d k =
      let (result, k') = channel.read_into max_packet_size k in
      let now = step result d in
      let later = met more now.0 (write_all channel now.1 k') in
      if d.running then read result ∷ later else []

  -- The rounds do to the daemon what the loop does with the events that they meet.
  pub loop-met :
      (rounds : List Bool) (d : ChifDaemon World) (k : State)
      → (channel_loop rounds d k).0 ≡ loop (met rounds d k) d
  unfolding channel_loop loop stop
  loop-met [] d k = refl
  loop-met (true ∷ more) d k = refl
  loop-met (false ∷ more) d k =
      let (result, k') = channel.read_into max_packet_size k in
      let now = step result d in
      let k'' = write_all channel now.1 k' in
      let events = read result ∷ met more now.0 k'' in
      if-ap (λ (out : (ChifDaemon World × List Output) × State). out.0) d.running _ _
      ∙ ap (λ (out : ChifDaemon World × List Output). if d.running then out else (d, []))
          (ap (λ (o : ChifDaemon World × List Output). (o.0, now.1 ++ o.1))
            (loop-met more now.0 k''))
      ∙ sym (if-if d.running _ _)
      ∙ sym (if-ap (λ es. loop es d) d.running events [])

  pub met-PacketEvent :
      (rounds : List Bool) (d : ChifDaemon World) (k : State)
      → IsChannel channel
      → All PacketEvent (met rounds d k)
  met-PacketEvent [] d k within = tt
  met-PacketEvent (true ∷ more) d k within = (tt, tt)
  met-PacketEvent (false ∷ more) d k within =
      let (result, k') = channel.read_into max_packet_size k in
      let now = step result d in
      if-intro (All PacketEvent) d.running
        (λ _. (
          read-PacketEvent result (within max_packet_size k),
          met-PacketEvent more now.0 (write_all channel now.1 k') within,
        ))
        (λ _. tt)
