-- ===== src/Main/Enumerate.antt =====
-- The variables of the store, read one index after the other.
use ocp_canopy_open_bmc.Common.{
  ℕ, zero, suc, ◌≡◌, refl, ap, ap₂, sym, ◌∙◌, subst, true, none, some, List, [], ◌∷◌, ◌++◌, arith,
  Bytes, All, drop, get_elem?,
}
use ocp_canopy_open_bmc.Packet.{parse_header, smif_service_id}
use ocp_canopy_open_bmc.Packet.Frame.{reply_frame, length-reply_frame}
use ocp_canopy_open_bmc.EvStorage.{EvEntry, EvStorage}
use ocp_canopy_open_bmc.EvStorage.Codec.{IsEntry}
use ocp_canopy_open_bmc.EvStorage.Valid.{IsValid}
use ocp_canopy_open_bmc.Smif.I2c.{I2cDriver}
use ocp_canopy_open_bmc.Smif.Ev.Answers.{ValidIfAny}
use ocp_canopy_open_bmc.Smif.Service.Index.{
  ReadsIndex, indexed_body, EntryIfAny, handle-ReadsIndex, next-ReadsIndex,
}
use ocp_canopy_open_bmc.Daemon.{Event, run}
use ocp_canopy_open_bmc.Daemon.Replies.{PacketEvent}
use ocp_canopy_open_bmc.Daemon.Fresh.{packets_read, packets_sent, zeros, fresh_round, fresh_serve}
use ocp_canopy_open_bmc.Daemon.Fresh.Rounds.{length-zeros}
use ocp_canopy_open_bmc.Main.{Services, registered, main_daemon}
use ocp_canopy_open_bmc.Main.Apart.{is_for, main-sent}
use ocp_canopy_open_bmc.Main.First.{round-frame, round-next}

-- The packets read the variables at the indices from this one on.
abbrev pub AskFrom : ℕ → List Bytes → Type 0
AskFrom i [] = Unit
AskFrom i (packet ∷ packets) =
    (is_for smif_service_id packet ≡ true) × (ReadsIndex i packet × AskFrom (suc i) packets)

-- One entry for each packet, and behind the last one the error for no such variable.
abbrev pub answers : List EvEntry → List Bytes → List Bytes
answers entries [] = []
answers [] (packet ∷ packets) =
    reply_frame (parse_header packet) (indexed_body none) ∷ answers [] packets
answers (e ∷ entries) (packet ∷ packets) =
    reply_frame (parse_header packet) (indexed_body (some e)) ∷ answers entries packets

drop-over :
    {A : Type 0} (i : ℕ) (xs : List A)
    → drop i xs ≡ []
    → (get_elem? xs i ≡ none) × (drop (suc i) xs ≡ [])
drop-over i [] e = (refl, refl)
drop-over zero (x ∷ xs) e = cc
drop-over (suc i) (x ∷ xs) e = drop-over i xs e

drop-next :
    {A : Type 0} (i : ℕ) (xs : List A) (x : A) (rest : List A)
    → drop i xs ≡ x ∷ rest
    → (get_elem? xs i ≡ some x) × (drop (suc i) xs ≡ rest)
drop-next zero [] x rest e = cc
drop-next (suc i) [] x rest e = cc
drop-next zero (y ∷ xs) x rest e = (cc e, cc e)
drop-next (suc i) (y ∷ xs) x rest e = drop-next i xs x rest e

All-EntryIfAny : (i : ℕ) (es : List EvEntry) → All IsEntry es → EntryIfAny (get_elem? es i)
All-EntryIfAny i [] each = tt
All-EntryIfAny zero (e ∷ es) each = each.0
All-EntryIfAny (suc i) (e ∷ es) each = All-EntryIfAny i es each.1

module _ {World : Type 0} (driver : I2cDriver World) where
  serve-one :
      (packet : Bytes) (packets : List Bytes) (i : ℕ) (services : Services World)
      (store : EvStorage)
      → services.smif.ev_storage ≡ some store
      → IsValid store
      → is_for smif_service_id packet ≡ true
      → ReadsIndex i packet
      → (fresh_serve (registered driver) (packet ∷ packets) services).1
        ≡ reply_frame (parse_header packet) (indexed_body (get_elem? store.entries i))
          ∷ (fresh_serve (registered driver) packets services).1
  serve-one packet packets i services store there valid mine reads =
      let found = get_elem? store.entries i in
      let frame = reply_frame (parse_header packet) (indexed_body found) in
      let answered =
        handle-ReadsIndex driver services.smif store i packet zeros there reads
          (All-EntryIfAny i store.entries valid.each) (omega (arith, length-zeros)) in
      let same : (fresh_round (registered driver) packet services).0 ≡ services =
        round-next driver services packet mine
        ∙ ap (λ s. record services { smif = s })
            (next-ReadsIndex driver services.smif i packet reads) in
      ap₂ ◌++◌
        (round-frame driver services packet frame mine answered
          (omega (arith, length-reply_frame (parse_header packet) (indexed_body found))))
        (ap (λ w. (fresh_serve (registered driver) packets w).1) same)

  serve-answers :
      (packets : List Bytes) (entries : List EvEntry) (i : ℕ) (services : Services World)
      (store : EvStorage)
      → services.smif.ev_storage ≡ some store
      → IsValid store
      → drop i store.entries ≡ entries
      → AskFrom i packets
      → (fresh_serve (registered driver) packets services).1 ≡ answers entries packets
  serve-answers [] entries i services store there valid left asks = refl
  serve-answers (packet ∷ packets) [] i services store there valid left (mine, (reads, asks)) =
      let (found, later) = drop-over i store.entries left in
      serve-one packet packets i services store there valid mine reads
      ∙ ap₂ (λ o rest. reply_frame (parse_header packet) (indexed_body o) ∷ rest) found
          (serve-answers packets [] (suc i) services store there valid later asks)
  serve-answers (packet ∷ packets) (e ∷ entries) i services store there valid left
        (mine, (reads, asks)) =
      let (found, later) = drop-next i store.entries e entries left in
      serve-one packet packets i services store there valid mine reads
      ∙ ap₂ (λ o rest. reply_frame (parse_header packet) (indexed_body o) ∷ rest) found
          (serve-answers packets entries (suc i) services store there valid later asks)

  -- From a store within its limits, let a run of the daemon of `main` read packets that ask for the
  -- variables at the indices 0, 1, 2 and so on, before the first signal. It sends the entries of
  -- the store, one for each packet, in order, and behind the last one the error for no such
  -- variable. Reads that fail in between do not matter.
  pub main-answers :
      (services : Services World) (store : EvStorage) (es : List Event)
      → services.smif.ev_storage ≡ some store
      → IsValid store
      → All PacketEvent es
      → AskFrom 0 (packets_read es)
      → packets_sent (run es (main_daemon driver services)).1
        ≡ answers store.entries (packets_read es)
  main-answers services store es there valid each asks =
      main-sent driver services es (subst ValidIfAny (sym there) valid) each
      ∙ serve-answers (packets_read es) store.entries 0 services store there valid refl asks
