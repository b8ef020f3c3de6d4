-- ===== src/NativeCopy/Files/Backup.antt =====
-- What a successful run of the loop leaves: every file backed up, in the order of the scan.
use bksd.Base.{
  ℕ, ◌+◌, ◌%◌, ◌<◌, String, ◌≡◌, refl, sym, ap, subst, ◌∙◌, ◌≢◌, some, List, [], ◌∷◌, ◌++◌, Result,
  ok, err, arith, All, All-map, append-nil, append_assoc, add_u64, u64_mod, length,
}
use bksd.Storage.{FilePath, Bytes, Disk, get_file, join, strip_prefix}
use bksd.Storage.Laws.{append-strip_prefix}
use bksd.Storage.Host.{Host, Blake3, Float, IsStreaming, hash_of}
use bksd.Transfer.{FileHash}
use bksd.NativeCopy.Scan.{FileInfo}
use bksd.NativeCopy.Scan.Names.{DistinctPaths}
use bksd.NativeCopy.File.Content.{source_content, Holds, copy_single_file-copies}
use bksd.NativeCopy.Files.{
  CopyOptions, CopyState, initial, and_continue, copy_file, copy_loop, report_errors, loop_result,
  copy_files_with_progress,
}
use bksd.NativeCopy.Files.Rounds.{send_progress_keeps, after_copy, Succeeded, copy_file-Succeeded}
use bksd.NativeCopy.Files.Frame.{IsElsewhere, get_file-copy_loop, errors-copy_loop}

unfoldable pub sum_hashed : List FileHash → ℕ
sum_hashed [] = 0
sum_hashed (h ∷ hs) = h.size + sum_hashed hs

module _ (B : Blake3) (host : Host) (source destination : FilePath) where
  -- The source file `info` stands on the disk as `entry` says: below the destination at its relative
  -- path, with the bytes that the device has, their hash and their number.
  pub record IsBackedUp (disk : Disk) (info : FileInfo) (entry : FileHash) : Type 0 where
    pub placed : source ++ entry.relative_path ≡ info.path
    pub content : Bytes
    pub read : source_content host info.path ≡ ok content
    pub hashed : entry.hash ≡ hash_of B content
    pub sized : entry.size ≡ length content % u64_mod
    pub holds : Holds (join destination entry.relative_path) content disk

  -- The files and the entries correspond one to one, in order.
  abbrev pub AllBackedUp : Disk → List FileInfo → List FileHash → Type 0
  AllBackedUp disk [] [] = Unit
  AllBackedUp disk (f ∷ fs) (h ∷ hs) = IsBackedUp disk f h × AllBackedUp disk fs hs
  AllBackedUp disk _ _ = ⊥

append_cancel_left {ℓ} : {A : Type ℓ} (xs ys zs : List A) → xs ++ ys ≡ xs ++ zs → ys ≡ zs
append_cancel_left [] ys zs e = e
append_cancel_left (x ∷ xs) ys zs e = append_cancel_left xs ys zs (cc)

report_errors-eq-ok :
    (s : CopyState) (n : ℕ) (hashes : List FileHash)
    → report_errors s ≡ ok (n, hashes)
    → (s.errors ≡ []) × (s.bytes_copied ≡ n) × (s.file_hashes ≡ hashes)
unfolding report_errors
report_errors-eq-ok s n hashes e = ground arith

loop_result-eq-ok :
    (r : Result String (Unit {0}) × CopyState) (n : ℕ) (hashes : List FileHash) (t : CopyState)
    → loop_result r ≡ (ok (n, hashes), t)
    → (r ≡ (ok tt, t)) × (t.errors ≡ []) × (t.bytes_copied ≡ n) × (t.file_hashes ≡ hashes)
loop_result-eq-ok (ok _, s) n hashes t e =
    let same : s ≡ t = ap (λ (x : Result String (ℕ × List FileHash) × CopyState). x.1) e in
    let (clean, bytes, listed) =
      report_errors-eq-ok s n hashes
        (ap (λ (x : Result String (ℕ × List FileHash) × CopyState). x.0) e) in
    (
      ap (λ x. (ok tt, x)) same,
      sym (ap (λ (x : CopyState). x.errors) same) ∙ clean,
      sym (ap (λ (x : CopyState). x.bytes_copied) same) ∙ bytes,
      sym (ap (λ (x : CopyState). x.file_hashes) same) ∙ listed,
    )
loop_result-eq-ok (err m, s) n hashes t e =
    absurd (cc (ap (λ (x : Result String (ℕ × List FileHash) × CopyState). x.0) e))

module _ (B : Blake3) (F : Float) (host : Host) (elapsed : FilePath → F.F64)
    (source destination : FilePath) (options : CopyOptions) (total_bytes : ℕ)
    (S : IsStreaming B) where
  abbrev round : FileInfo → CopyState → Result String (Unit {0}) × CopyState
  round = copy_file B F host elapsed source destination options total_bytes

  abbrev loop : List FileInfo → CopyState → Result String (Unit {0}) × CopyState
  loop = copy_loop B F host elapsed source destination options total_bytes

  -- Another file of the scan has another destination.
  IsElsewhere-of_ne :
      (info other : FileInfo) (relative : FilePath)
      → strip_prefix source info.path ≡ some relative
      → info.path ≢ other.path
      → IsElsewhere B F host elapsed source destination options total_bytes
          (join destination relative)
          other
  IsElsewhere-of_ne info other relative below apart r e same = apart (
      sym (append-strip_prefix source info.path below)
      ∙ ap (λ p. source ++ p) (append_cancel_left destination relative r (sym same))
      ∙ append-strip_prefix source other.path e)

  -- The rest of a run that succeeded, from the state `s` on.
  record Rest (files : List FileInfo) (s t : CopyState) : Type 0 where
    added : List FileHash
    listed : t.file_hashes ≡ s.file_hashes ++ added
    backed : AllBackedUp B host source destination t.disk files added
    counted : t.bytes_copied ≡ (s.bytes_copied + sum_hashed added) % u64_mod

  split_ok :
      (r : Result String (Unit {0}) × CopyState)
      (next : CopyState → Result String (Unit {0}) × CopyState) (t : CopyState)
      → and_continue r next ≡ (ok tt, t)
      → (u : CopyState) × (r ≡ (ok tt, u)) × (next u ≡ (ok tt, t))
  split_ok (ok _, u) next t e = (u, refl, e)
  split_ok (err m, u) next t e =
      absurd (cc (ap (λ (x : Result String (Unit {0}) × CopyState). x.0) e))

  Rest-first :
      (info : FileInfo) (files : List FileInfo) (s u t : CopyState)
      → (done : Succeeded B F host elapsed source destination options total_bytes info s u)
      → All (λ other. info.path ≢ other.path) files
      → loop files u ≡ (ok tt, t)
      → Rest files u t
      → Rest (info ∷ files) s t
  Rest-first info files s u t done apart ran rest =
      let (disk_u, bytes_u, _, hashes_u) =
        send_progress_keeps F elapsed total_bytes done.relative
          (after_copy done.relative done.file_bytes done.hash done.disk s) in
      let (content, read, sized, hashed, held) =
        copy_single_file-copies B host S info.path (join destination done.relative)
          options.sync_files options.owner_ids s.disk done.copied in
      let kept : get_file (join destination done.relative) t.disk
          ≡ get_file (join destination done.relative) done.disk =
        sym (
          ap
            (λ (r : Result String (Unit {0}) × CopyState).
              get_file (join destination done.relative) r.1.disk)
            ran)
        ∙ get_file-copy_loop B F host elapsed source destination options total_bytes
            (join destination done.relative) files u
            (All-map files (λ other. IsElsewhere-of_ne info other done.relative done.below) apart)
        ∙ ap (λ (x : CopyState). get_file (join destination done.relative) x.disk) done.state
        ∙ ap (get_file (join destination done.relative)) disk_u in
      let bytes : u.bytes_copied ≡ add_u64 s.bytes_copied done.file_bytes =
        ap (λ (x : CopyState). x.bytes_copied) done.state ∙ bytes_u in
      let hashes : u.file_hashes ≡ s.file_hashes ++ entry_of done ∷ [] =
        ap (λ (x : CopyState). x.file_hashes) done.state ∙ hashes_u in
      record {
        added = entry_of done ∷ rest.added;
        listed =
            rest.listed
            ∙ ap (λ l. l ++ rest.added) hashes
            ∙ append_assoc s.file_hashes (entry_of done ∷ []) rest.added;
        backed = (
          record {
            placed = append-strip_prefix source info.path done.below;
            content = content;
            read = read;
            hashed = hashed;
            sized = sized;
            holds = (held.0, kept ∙ held.1, held.2);
          },
          rest.backed,
        );
        counted = unfold sum_hashed in omega (arith, bytes, rest.counted);
      }
    where
      entry_of :
          Succeeded B F host elapsed source destination options total_bytes info s u → FileHash
      entry_of d = record { relative_path = d.relative; hash = d.hash; size = d.file_bytes }

  copy_loop-Rest :
      (files : List FileInfo) (s t : CopyState)
      → s.bytes_copied < u64_mod
      → DistinctPaths files
      → loop files s ≡ (ok tt, t)
      → t.errors ≡ []
      → Rest files s t
  unfolding copy_loop sum_hashed
  copy_loop-Rest [] s t small distinct e clean =
      let same : s ≡ t = ap (λ (r : Result String (Unit {0}) × CopyState). r.1) e in
      record {
        added = [];
        listed = sym (ap (λ (x : CopyState). x.file_hashes) same) ∙ sym (append-nil s.file_hashes);
        backed = tt;
        counted = sym (ap (λ (x : CopyState). x.bytes_copied) same) ∙ omega arith;
      }
  copy_loop-Rest (info ∷ files) s t small distinct e clean =
      let (u, first, next) = split_ok (round info s) (λ x. loop files x) t e in
      let clean_u : u.errors ≡ [] =
        errors-copy_loop B F host elapsed source destination options total_bytes files u
          (ap (λ (r : Result String (Unit {0}) × CopyState). r.1.errors) next ∙ clean) in
      let done =
        copy_file-Succeeded B F host elapsed source destination options total_bytes info s u first
          clean_u in
      let small_u : u.bytes_copied < u64_mod =
        rw
          (ap (λ (x : CopyState). x.bytes_copied) done.state
            ∙ (send_progress_keeps F elapsed total_bytes done.relative
                (after_copy done.relative done.file_bytes done.hash done.disk s)).1)
          (omega arith) in
      Rest-first info files s u t done distinct.0 next
        (copy_loop-Rest files u t small_u distinct.1 next clean)

  -- With a hasher that hashes the concatenation of its updates: if the transfer of files with
  -- distinct paths succeeds, then each of them stands below the destination with exactly the
  -- bytes of the device, the returned list has one entry for each file in the order of the scan,
  -- with its relative path, hash and size, and the returned count is the sum of these sizes as a
  -- 64-bit number.
  pub copy_files-AllBackedUp :
      (files : List FileInfo) (disk : Disk) {n : ℕ} {hashes : List FileHash} {t : CopyState}
      → DistinctPaths files
      → copy_files_with_progress B F host elapsed source destination files total_bytes options disk
        ≡ (ok (n, hashes), t)
      → AllBackedUp B host source destination t.disk files hashes
        × (n ≡ sum_hashed hashes % u64_mod)
  unfolding copy_files_with_progress initial
  copy_files-AllBackedUp files disk {n} {hashes} {t} distinct e =
      let (ran, clean, bytes, listed) =
        loop_result-eq-ok (loop files (initial disk)) n hashes t e in
      let rest = copy_loop-Rest files (initial disk) t (omega arith) distinct ran clean in
      let same : rest.added ≡ hashes = sym rest.listed ∙ listed in
      (
        subst (AllBackedUp B host source destination t.disk files) same rest.backed,
        omega (arith, bytes, rest.counted, ap sum_hashed same),
      )
