-- ===== src/UefiFv/Files/RoundTrip.antt =====
-- The walk over a printed row of files.
use ocp_canopy_open_bmc.Common.{
  ℕ, suc, ◌+◌, ◌%◌, ◌^◌, ◌≤◌, ◌<◌, ◌≡◌, ap, sym, ◌∙◌, List, [], ◌∷◌, ◌++◌, append_assoc, arith,
  Bytes, length, length-append, All,
}
use ocp_canopy_open_bmc.UefiFv.{EfiGuid}
use ocp_canopy_open_bmc.UefiFv.Walk.{found, align8, walk}
use ocp_canopy_open_bmc.UefiFv.Files.{
  FfsFile, file_size, padded_bytes, files_bytes, IsOther, length-padded_bytes, align8-behind,
  walk_reads, on_file-skips,
}
use ocp_canopy_open_bmc.UefiFv.Files.Payload.{IsRawFile, on_file-found}

module _ (rom : Bytes) (file_guid : EfiGuid) (fv_end : ℕ) (low : fv_end ≤ 2 ^ 31) where
  -- Where the walk stands behind some files: at an offset that is aligned to the next file.
  record Stands (fuel off rounds place : ℕ) : Type 0 where
    at : ℕ
    aligned : align8 at ≡ place
    before : at ≤ place
    same_walk : walk (rounds + fuel) rom file_guid fv_end off ≡ walk fuel rom file_guid fv_end at

  walk-passes :
      (fs : List FfsFile) (pre more : Bytes) (fuel off : ℕ)
      → All (IsOther file_guid) fs
      → rom ≡ pre ++ (files_bytes fs ++ more)
      → align8 off ≡ length pre
      → off ≤ length pre
      → length pre % 8 ≡ 0
      → length pre + length (files_bytes fs) + 24 < fv_end
      → Stands fuel off (length fs) (length pre + length (files_bytes fs))
  walk-passes [] pre more fuel off others holds aligned before multiple room = record {
    at = off;
    aligned = aligned ∙ omega arith;
    before = omega (arith, before);
    same_walk = ap (λ n. walk n rom file_guid fv_end off) {x = 0 + fuel} {y = fuel} (omega arith);
  }
  walk-passes (f ∷ fs) pre more fuel off others holds aligned before multiple room =
      let rest : Bytes = files_bytes fs ++ more in
      let here : rom ≡ pre ++ (padded_bytes f ++ rest) =
        holds
        ∙ ap (λ (bs : Bytes). pre ++ bs) (append_assoc (padded_bytes f) (files_bytes fs) more) in
      let fine = others.0.fine in
      let whole = length-append (padded_bytes f) (files_bytes fs) in
      let size = length-padded_bytes f fine in
      let both = length-append pre (padded_bytes f) in
      let next = length pre + file_size f in
      let passed : walk (suc (length fs + fuel)) rom file_guid fv_end off
          ≡ walk (length fs + fuel) rom file_guid fv_end next =
        walk_reads f fine rom pre rest here file_guid fv_end (length fs + fuel) off aligned
          (omega arith) low
        ∙ on_file-skips f fine (walk (length fs + fuel) rom file_guid fv_end) rom file_guid
            (length pre) others.0.used others.0.other (omega arith) in
      let later =
        walk-passes fs (pre ++ padded_bytes f) more fuel next others.1
          (here ∙ sym (append_assoc pre (padded_bytes f) rest))
          (align8-behind f fine (length pre) multiple (omega arith) ∙ sym both) (omega arith)
          (omega arith) (omega arith) in
      record {
        at = later.at;
        aligned = later.aligned ∙ omega arith;
        before = omega (arith, later.before);
        same_walk =
            ap (λ n. walk n rom file_guid fv_end off) {x = suc (length fs) + fuel}
              {y = suc (length fs + fuel)} (omega arith)
            ∙ (passed ∙ later.same_walk);
      }

pub walk-finds :
    (file_guid : EfiGuid) (fs : List FfsFile) (f : FfsFile) (payload pre post rom : Bytes)
    (fv_end fuel off : ℕ)
    → All (IsOther file_guid) fs
    → IsRawFile file_guid f payload
    → rom ≡ pre ++ (files_bytes fs ++ (padded_bytes f ++ post))
    → align8 off ≡ length pre
    → off ≤ length pre
    → length pre % 8 ≡ 0
    → length pre + length (files_bytes fs) + 24 < fv_end
    → fv_end ≤ 2 ^ 31
    → length rom ≤ 2 ^ 31
    → walk (length fs + suc fuel) rom file_guid fv_end off ≡ found payload
walk-finds file_guid fs f payload pre post rom fv_end fuel off others is_raw holds aligned
      before_files multiple room low small =
    let stands =
      walk-passes rom file_guid fv_end low fs pre (padded_bytes f ++ post) (suc fuel) off others
        holds aligned before_files multiple room in
    let before : Bytes = pre ++ files_bytes fs in
    let size = length-append pre (files_bytes fs) in
    let here : rom ≡ before ++ (padded_bytes f ++ post) =
      holds ∙ sym (append_assoc pre (files_bytes fs) (padded_bytes f ++ post)) in
    stands.same_walk
    ∙ (walk_reads f is_raw.fine rom before post here file_guid fv_end fuel stands.at
          (stands.aligned ∙ sym size) (omega (arith, stands.before)) low
        ∙ on_file-found rom before post file_guid f payload is_raw here small
            (walk fuel rom file_guid fv_end))
