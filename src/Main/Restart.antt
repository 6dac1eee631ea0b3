-- ===== src/Main/Restart.antt =====
-- A variable that the host sets, read back behind a restart of the program.
use ocp_canopy_open_bmc.Common.{
  ◌≡◌, refl, ap, subst, ◌∙◌, true, Option, none, some, List, [], ◌∷◌, ◌++◌, arith, Bytes, take, All,
}
use ocp_canopy_open_bmc.Packet.{parse_header, smif_service_id}
use ocp_canopy_open_bmc.Packet.Frame.{reply_frame, length-reply_frame}
use ocp_canopy_open_bmc.EvStorage.{EvStorage, find, get_by_name, set, load}
use ocp_canopy_open_bmc.EvStorage.Valid.{IsValid, load-IsValid, find-IsEntry}
use ocp_canopy_open_bmc.EvStorage.Durable.{to_set, apply-load}
use ocp_canopy_open_bmc.Smif.Response.Entry.{entry_body}
use ocp_canopy_open_bmc.Smif.Ev.Answers.{ValidIfAny}
use ocp_canopy_open_bmc.Smif.I2c.{I2cDriver, SegmentBusMap}
use ocp_canopy_open_bmc.Smif.Service.{SmifService}
use ocp_canopy_open_bmc.Smif.Service.Refine.{handle-ValidIfAny}
use ocp_canopy_open_bmc.Smif.Service.State.{next, handle-next}
use ocp_canopy_open_bmc.Smif.Service.Store.{
  Sets, Gets, entry_of, set-get_by_name, next-Sets, handle-Gets,
}
use ocp_canopy_open_bmc.Daemon.{Event, run}
use ocp_canopy_open_bmc.Daemon.Replies.{PacketEvent}
use ocp_canopy_open_bmc.Daemon.Fresh.{packets_read, packets_sent, zeros}
use ocp_canopy_open_bmc.Daemon.Fresh.Rounds.{length-zeros}
use ocp_canopy_open_bmc.Main.{Services, main_daemon}
use ocp_canopy_open_bmc.Main.Whole.{StoreValid}
use ocp_canopy_open_bmc.Main.Apart.{is_for, packets_for, next_all, main-services}
use ocp_canopy_open_bmc.Main.First.{first-sent}
use ocp_canopy_open_bmc.Main.Boot.{Machine, loaded, services_with}

-- The file of the store, if there is a store.
abbrev pub file_of : Option EvStorage → Option Bytes
file_of none = none
file_of (some s) = s.file

-- The store that a program with this file loads finds the same entries.
loaded-found :
    {World : Type 0} (m : Machine World) (s : EvStorage)
    → m.ev_opens ≡ true
    → m.ev_file ≡ s.file
    → (load true s).1 ≡ s
    → (name : Bytes) → get_by_name name (loaded m) ≡ get_by_name name s
unfolding loaded load get_by_name
loaded-found m s opens file whole name =
    rw (opens, file) (ap (λ (t : EvStorage). find name t.entries) whole)

module _ {World : Type 0} (driver : I2cDriver World) where
  next-ValidIfAny :
      (s : SmifService World) (packet : Bytes)
      → ValidIfAny s.ev_storage
      → ValidIfAny (next driver s packet).ev_storage
  next-ValidIfAny s packet valid =
      subst (λ (t : SmifService World). ValidIfAny t.ev_storage)
        (handle-next driver s packet zeros (omega (arith, length-zeros)))
        (handle-ValidIfAny driver s packet zeros valid)

  next_all-ValidIfAny :
      (packets : List Bytes) (s : SmifService World)
      → ValidIfAny s.ev_storage
      → ValidIfAny (next_all driver s packets).ev_storage
  next_all-ValidIfAny [] s valid = valid
  next_all-ValidIfAny (packet ∷ packets) s valid =
      next_all-ValidIfAny packets (next driver s packet) (next-ValidIfAny s packet valid)

  next_all-append :
      (xs ys : List Bytes) (s : SmifService World)
      → next_all driver s (xs ++ ys) ≡ next_all driver (next_all driver s xs) ys
  next_all-append [] ys s = refl
  next_all-append (x ∷ xs) ys s = next_all-append xs ys (next driver s x)

  -- What a restarted daemon answers first, when it loads the file of this store.
  restarted-sent :
      (m : Machine World) (segments : SegmentBusMap) (es : List Event) (packets : List Bytes)
      (store : EvStorage) (name value packet : Bytes)
      → m.ev_opens ≡ true
      → m.ev_file ≡ store.file
      → (load true store).1 ≡ store
      → get_by_name name store ≡ some (entry_of name value)
      → All PacketEvent es
      → packets_read es ≡ packet ∷ packets
      → is_for smif_service_id packet ≡ true
      → Gets name packet
      → take 1 (packets_sent (run es (main_daemon driver (services_with m segments))).1)
        ≡ reply_frame (parse_header packet) (entry_body (entry_of name value)) ∷ []
  unfolding services_with
  restarted-sent m segments es packets store name value packet opens file whole found each reads
        mine gets =
      let services = services_with m segments in
      let valid : IsValid (loaded m) =
        unfold loaded in
        load-IsValid m.ev_opens (record { entries = []; file = m.ev_file; outcomes = m.saves }) in
      let e = entry_of name value in
      let found_there = loaded-found m store opens file whole name ∙ found in
      let is_entry =
        find-IsEntry name (loaded m).entries e valid.each (unfold get_by_name in found_there) in
      let frame = reply_frame (parse_header packet) (entry_body e) in
      first-sent driver services packet frame mine
        (handle-Gets driver services.smif (loaded m) name packet zeros e refl gets found_there
          is_entry (omega (arith, length-zeros)))
        (omega (arith, length-reply_frame (parse_header packet) (entry_body e))) es packets valid
        each reads

  -- Let a run of the daemon of `main` start from a store within its limits, and let the last packet
  -- for the SMIF service before the first signal be one that sets a variable, with a name of at
  -- most 31 characters and a value of 1 to 3966 bytes, which the store accepts as it is by then.
  -- Then a second run, of a program that finds the file that the first one left, answers a first
  -- packet that reads that name with the reply of no error, that name and that value. This holds
  -- for any row of signals and of reads of at most 4096 bytes around these packets, any flash, any
  -- devices, any I2C driver and any later answers of the file system.
  pub main-restart :
      (services : Services World) (es : List Event) (earlier : List Bytes) (store : EvStorage)
      (name value set_packet : Bytes) (m : Machine World) (segments : SegmentBusMap)
      (es' : List Event) (later : List Bytes) (get_packet : Bytes)
      → StoreValid driver services
      → All PacketEvent es
      → packets_for smif_service_id (packets_read es) ≡ earlier ++ (set_packet ∷ [])
      → (next_all driver services.smif earlier).ev_storage ≡ some store
      → Sets name value set_packet
      → (set name value store).0 ≡ true
      → m.ev_opens ≡ true
      → m.ev_file ≡ file_of (run es (main_daemon driver services)).0.world.smif.ev_storage
      → All PacketEvent es'
      → packets_read es' ≡ get_packet ∷ later
      → is_for smif_service_id get_packet ≡ true
      → Gets name get_packet
      → take 1 (packets_sent (run es' (main_daemon driver (services_with m segments))).1)
        ≡ reply_frame (parse_header get_packet) (entry_body (entry_of name value)) ∷ []
  main-restart services es earlier store name value set_packet m segments es' later get_packet
        start_valid each are there sets accepted opens file each' reads mine gets =
      let after : EvStorage = (set name value store).1 in
      let before = next_all driver services.smif earlier in
      let valid : IsValid store =
        subst ValidIfAny there (next_all-ValidIfAny earlier services.smif start_valid) in
      let left : (run es (main_daemon driver services)).0.world.smif.ev_storage ≡ some after =
        ap (λ w. w.smif.ev_storage) (main-services driver services es start_valid each)
        ∙ ap (λ ps. (next_all driver services.smif ps).ev_storage) are
        ∙ ap (λ (s : SmifService World). s.ev_storage)
            (next_all-append earlier (set_packet ∷ []) services.smif)
        ∙ next-Sets driver before store name value set_packet there sets in
      let survives = apply-load (to_set name value) store sets.is_name.text valid accepted in
      restarted-sent m segments es' later after name value get_packet opens (file ∙ ap file_of left)
        (ap (λ r. r.1) survives) (set-get_by_name name value store valid accepted) each' reads mine
        gets
