-- ===== src/Rom/Session.antt =====
-- A whole upload: begin, blobs of records, end.
use ocp_canopy_open_bmc.Common.{
  ℕ, ◌+◌, ◌%◌, ◌≤◌, ◌<◌, ◌≡◌, ◌⊎◌, inl, inr, refl, sym, ap, ◌∙◌, false, List, [], ◌∷◌, ◌++◌,
  append_assoc, append-nil, arith, some, Bytes, length, length-append, All, take-all, ◌==◌,
  if◌then◌else◌, le→ltb,
}
use ocp_canopy_open_bmc.Packet.{payload}
use ocp_canopy_open_bmc.Packet.Frame.{IsCommand}
use ocp_canopy_open_bmc.Smbios.{
  FileOutcome, Writer, add_record, begin, finalize, max_smbios_data_size,
}
use ocp_canopy_open_bmc.Smbios.Blob.{IsRecord, blob_of, accepted, add_record-blob_of}
use ocp_canopy_open_bmc.Smbios.Image.{IsImage, next_image, finalize-Succeeds, next_image-IsImage}
use ocp_canopy_open_bmc.Rom.{
  RomService, asked, handle_begin, handle_record, handle_blob, handle_end, dispatch, handle,
}

-- The service behind a row of requests, each answered in a buffer of its own.
abbrev pub serve : RomService → List (Bytes × Bytes) → RomService
serve s [] = s
serve s ((request, response) ∷ more) = serve (handle s request response).1 more

-- The request is a record or blob command whose payload is the blob of these records.
pub record Carries (rs : List Bytes) (request : Bytes) : Type 0 where
  pub command : IsCommand 4 request ⊎ IsCommand 12 request
  pub blob : payload request ≡ blob_of rs
  pub well_formed : All IsRecord rs
  pub some_record : 0 < length rs
  pub few_records : length rs ≤ 1000

abbrev pub CarryAll : List (List Bytes) → List (Bytes × Bytes) → Type 0
CarryAll [] [] = Unit
CarryAll (rs ∷ batches) ((request, response) ∷ more) = Carries rs request × CarryAll batches more
CarryAll _ _ = ⊥

abbrev pub joined : List Bytes → Bytes
joined [] = []
joined (r ∷ rs) = r ++ joined rs

abbrev pub joined_all : List (List Bytes) → Bytes
joined_all [] = []
joined_all (rs ∷ batches) = joined rs ++ joined_all batches

handle-begin :
    (s : RomService) (request response : Bytes)
    → IsCommand 3 request
    → (handle s request response).1 ≡ record s { writer = begin s.writer }
unfolding handle dispatch handle_begin
handle-begin s request response (h, c) = rw (le→ltb _ _ h, c)

handle-end :
    (s : RomService) (request response : Bytes)
    → IsCommand 5 request
    → ((handle s request response).1.writer ≡ (finalize s.writer).1)
      × ((handle s request response).1.mdr_bridge
          ≡ (if (finalize s.writer).0 then asked s.mdr_bridge else s.mdr_bridge))
unfolding handle dispatch handle_end
handle-end s request response (h, c) = rw (le→ltb _ _ h, c) (refl, refl)

blob_of-nonempty : (rs : List Bytes) → (length (blob_of rs) == 0) ≡ false
blob_of-nonempty rs = ground arith

handle-Carries :
    (s : RomService) (rs : List Bytes) (request response : Bytes)
    → Carries rs request
    → (handle s request response).1 ≡ record s { writer = add_record (blob_of rs) s.writer }
unfolding handle dispatch handle_record handle_blob
handle-Carries s rs request response k = elim k.command [
  | inl (h, c) ↦ rw (le→ltb _ _ h, c, k.blob, blob_of-nonempty rs)
  | inr (h, c) ↦ rw (le→ltb _ _ h, c, k.blob, blob_of-nonempty rs)
]

accepted-joined :
    (used : ℕ) (rs : List Bytes)
    → used + length (joined rs) ≤ max_smbios_data_size
    → accepted used rs ≡ joined rs
accepted-joined used [] h = refl
accepted-joined used (r ∷ rs) h =
    rw (le→ltb max_smbios_data_size (used + length r) (omega (arith, length-append r (joined rs))))
      (ap (λ (tail : Bytes). r ++ tail)
        (accepted-joined (used + length r) rs (omega (arith, length-append r (joined rs)))))

pub serve-append :
    (s : RomService) (first second : List (Bytes × Bytes))
    → serve s (first ++ second) ≡ serve (serve s first) second
serve-append s [] second = refl
serve-append s ((request, response) ∷ first) second =
    serve-append (handle s request response).1 first second

-- The service with this much more in its writer.
abbrev gathered : RomService → Bytes → RomService
gathered s more = record s { writer = record s.writer { records = s.writer.records ++ more } }

handle-gathered :
    (s : RomService) (rs : List Bytes) (request response : Bytes)
    → Carries rs request
    → length s.writer.records + length (joined rs) ≤ max_smbios_data_size
    → (handle s request response).1 ≡ gathered s (joined rs)
handle-gathered s rs request response k fits =
    let few = k.few_records in
    handle-Carries s rs request response k
    ∙ ap (λ (w : Writer). record s { writer = w })
        (ap (λ (b : Bytes). add_record b s.writer) (sym (append-nil (blob_of rs)))
          ∙ add_record-blob_of rs [] s.writer k.well_formed k.some_record (omega arith)
          ∙ ap (λ (r : Bytes). record s.writer { records = s.writer.records ++ r })
              (ap (accepted (length s.writer.records)) (take-all 1000 rs few)
                ∙ accepted-joined (length s.writer.records) rs fits))

serve-gathered :
    (batches : List (List Bytes)) (requests : List (Bytes × Bytes)) (s : RomService)
    → CarryAll batches requests
    → length s.writer.records + length (joined_all batches) ≤ max_smbios_data_size
    → serve s requests ≡ gathered s (joined_all batches)
serve-gathered [] [] s k fits =
    ap (λ (r : Bytes). record s { writer = record s.writer { records = r } })
      (sym (append-nil s.writer.records))
serve-gathered [] (q ∷ requests) s k fits = absurd k
serve-gathered (rs ∷ batches) [] s k fits = absurd k
serve-gathered (rs ∷ batches) ((request, response) ∷ requests) s (k, ks) fits =
    let size = length-append (joined rs) (joined_all batches) in
    rw (handle-gathered s rs request response k (omega arith)) (
      serve-gathered batches requests (gathered s (joined rs)) ks
        (omega (arith, length-append s.writer.records (joined rs)))
      ∙ ap (λ (r : Bytes). record s { writer = record s.writer { records = r } })
          (append_assoc s.writer.records (joined rs) (joined_all batches)))

-- In any state of the service, a session of a begin command, record or blob commands that carry
-- some batches of records (1 to 1000 records of 1 to 65535 bytes in each batch, at least one byte
-- and at most 1 MiB in all), and an end command whose file operations go through, leaves a file
-- with exactly those records in order, under the next directory version, and has the
-- bridge, if there is one, call AgentSynchronizeData once more, whether that goes through or not.
-- Nothing of what was gathered before the session is in the file.
pub session_stores :
    (s : RomService) (batches : List (List Bytes)) (requests : List (Bytes × Bytes))
    (first first_response last last_response : Bytes)
    → IsCommand 3 first
    → CarryAll batches requests
    → IsCommand 5 last
    → 0 < length (joined_all batches)
    → length (joined_all batches) ≤ max_smbios_data_size
    → (s.writer.surroundings 0).files ≡ FileOutcome.written
    → let s' = serve s ((first, first_response) ∷ (requests ++ ((last, last_response) ∷ []))) in
      ((file : Bytes) × (s'.writer.output ≡ some file)
        × IsImage file
            ((s.writer.directory_version + 1) % 256)
            (s.writer.surroundings 0).epoch
            (joined_all batches))
      × (s'.mdr_bridge ≡ asked s.mdr_bridge)
unfolding begin
session_stores s batches requests first first_response last last_response b k e some_byte fits ok =
    let fresh : RomService = record s { writer = begin s.writer } in
    let full = gathered fresh (joined_all batches) in
    let (done, stored) = finalize-Succeeds full.writer (some_byte, ok) in
    let (writer_is, bridge_is) = handle-end full last last_response e in
    let ends : List (Bytes × Bytes) = (last, last_response) ∷ [] in
    let path : serve s ((first, first_response) ∷ (requests ++ ends))
        ≡ (handle full last last_response).1 =
      ap (λ (t : RomService). serve t (requests ++ ends)) (handle-begin s first first_response b)
      ∙ serve-append fresh requests ends
      ∙ ap (λ (t : RomService). serve t ends)
          (serve-gathered batches requests fresh k (omega arith)) in
    (
      (
        next_image full.writer,
        ap (λ (t : RomService). t.writer.output) path
            ∙ ap (λ (w : Writer). w.output) writer_is
            ∙ stored,
        next_image-IsImage full.writer fits,
      ),
      ap (λ (t : RomService). t.mdr_bridge) path ∙ (rw done at bridge_is),
    )
