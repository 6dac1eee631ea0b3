-- ===== src/Daemon.antt =====
-- src/chif_daemon.cpp: the loop that reads packets, hands each to the handler of its service, and
-- writes the handler's response.
--
-- What the loop meets is a row of events: the results of its reads, and the signals that call
-- `stop`. What it does is a row of outputs. The result of a write is only logged. Everything that
-- the handlers share is one state, the world.
pub mod Handlers
pub mod Replies
pub mod Fresh
pub mod Channel
pub mod Returns
pub mod Backoff
use ocp_canopy_open_bmc.Common.{
  ℕ, suc, ◌+◌, ◌*◌, ◌^◌, min, Bool, true, false, ◌&&◌, not, ltb, leb, ◌==◌, if◌then◌else◌, Option,
  none, some, List, [], ◌∷◌, ◌++◌, ℤ, pos, negsuc, Bytes, length, take, replicate, write_at,
}
use ocp_canopy_open_bmc.Packet.{header_size, max_packet_size, parse_header}
use ocp_canopy_open_bmc.Packet.Frame.{Handled}

abbrev pub max_consecutive_errors : ℕ
max_consecutive_errors = 10

abbrev pub error_backoff_base_delay : ℕ
error_backoff_base_delay = 1

abbrev pub error_backoff_max_delay : ℕ
error_backoff_max_delay = 30

-- EINTR on Linux.
abbrev pub eintr : ℕ
eintr = 4

-- `ServiceHandler`
pub record ServiceHandler (World : Type 0) : Type 0 where
  pub service_id : ℕ
  pub handle : World → Bytes → Bytes → Handled × World

-- `handlers_`, by service.
abbrev pub Handlers : Type 0 → Type 0
Handlers World = List (ServiceHandler World)

-- What a read returns: bytes, none, or an error with its errno.
pub data ReadResult : Type 0 where
  got : Bytes → ReadResult
  nothing : ReadResult
  read_error : ℕ → ReadResult

pub data Event : Type 0 where
  signal : Event
  read : ReadResult → Event

-- A packet written, a pause in seconds, or a pause whose length the code does not define.
pub data Output : Type 0 where
  sent : Bytes → Output
  slept : ℕ → Output
  undefined_pause : Output

-- `ChifDaemon`
pub record ChifDaemon (World : Type 0) : Type 0 where
  pub handlers : Handlers World
  pub running : Bool
  pub consecutive_errors : ℕ
  pub error_retry_counter : ℕ
  pub recv_buf : Bytes
  pub resp_buf : Bytes
  pub world : World

-- `static_cast<int>(std::pow(2, k))` is undefined where the power is no `int`.
unfoldable pub int_pow2 : ℕ → Option ℕ
int_pow2 k = if ltb (2 ^ k) (2 ^ 31) then some (2 ^ k) else none

-- The pause for the power of two that the retry has, if it has one.
unfoldable pub pause_of : Option ℕ → Output
pause_of none = undefined_pause
pause_of (some factor) = slept (min error_backoff_max_delay (error_backoff_base_delay * factor))

-- The pause of the k-th retry.
unfoldable pub delay : ℕ → Output
delay k = pause_of (int_pow2 k)

-- What the loop writes for a handler's result.
unfoldable pub outputs_of : Handled → List Output
outputs_of (pos size, resp) = if ltb size header_size then [] else sent (take size resp) ∷ []
outputs_of (negsuc n, resp) = []

module _ {World : Type 0} where
  -- `registerHandler`: a handler replaces the one that its service has.
  unfoldable pub register_handler : ServiceHandler World → Handlers World → Handlers World
  register_handler h [] = h ∷ []
  register_handler h (g ∷ hs) =
      if g.service_id == h.service_id then h ∷ hs else g ∷ register_handler h hs

  unfoldable pub find_handler : ℕ → Handlers World → Option (ServiceHandler World)
  find_handler id [] = none
  find_handler id (h ∷ hs) = if h.service_id == id then some h else find_handler id hs

  -- The branch of the loop for a read that returned an error.
  unfoldable pub on_error : ℕ → ChifDaemon World → ChifDaemon World × List Output
  on_error errno d =
      let errors = d.consecutive_errors + 1 in
      if errno == eintr
      then (d, [])
      else if leb max_consecutive_errors errors
      then (
        record d { consecutive_errors = errors; error_retry_counter = d.error_retry_counter + 1 },
        delay d.error_retry_counter ∷ [],
      )
      else (record d { consecutive_errors = errors }, [])

  -- The branch for a packet of some bytes, after the counters are reset.
  unfoldable pub on_packet :
      Option (ServiceHandler World) → Bytes → ChifDaemon World → ChifDaemon World × List Output
  on_packet none request d = (d, [])
  on_packet (some h) request d =
      let (handled, world) = h.handle d.world request d.resp_buf in
      (record d { resp_buf = handled.1; world = world }, outputs_of handled)

  unfoldable pub on_read : Bytes → ChifDaemon World → ChifDaemon World × List Output
  on_read packet d =
      let n = length packet in
      let filled = write_at 0 packet d.recv_buf in
      let request = take n filled in
      let reset : ChifDaemon World = record d {
        recv_buf = filled;
        consecutive_errors = 0;
        error_retry_counter = 0;
      } in
      if ltb n header_size
      then (reset, [])
      else on_packet (find_handler (parse_header request).service_id d.handlers) request reset

  -- One round of the loop of `run`.
  unfoldable pub step : ReadResult → ChifDaemon World → ChifDaemon World × List Output
  step nothing d = (d, [])
  step (read_error errno) d = on_error errno d
  step (got []) d = (d, [])
  step (got (b ∷ bs)) d = on_read (b ∷ bs) d

  -- `stop`
  unfoldable pub stop : ChifDaemon World → ChifDaemon World
  stop d = record d { running = false }

  -- The loop of `run`, until the flag is down or the events are over. It has returned when the flag
  -- is down; a daemon whose flag is up waits for the next event.
  unfoldable pub loop : List Event → ChifDaemon World → ChifDaemon World × List Output
  loop [] d = (d, [])
  loop (signal ∷ es) d = loop es (stop d)
  loop (read r ∷ es) d =
      let now = step r d in
      let later = loop es now.0 in if d.running then (later.0, now.1 ++ later.1) else (d, [])

  -- `run`
  unfoldable pub run : List Event → ChifDaemon World → ChifDaemon World × List Output
  run es d = loop es (record d { running = true; consecutive_errors = 0; error_retry_counter = 0 })
