-- ===== src/NativeCopy/File/Content.antt =====
-- A copy that succeeds has the source's bytes in the destination, counts them and hashes them.
use bksd.Base.{
  ℕ, ◌+◌, ◌%◌, ◌<◌, String, ◌≡◌, refl, sym, ap, subst, ◌∙◌, Bool, true, false, Option, none, some,
  List, [], ◌∷◌, ◌++◌, Result, ok, err, Result-cases, Option-cases, inl, inr, arith, ==_self,
  string_eq, list_eq, add_u64, u64_mod, length, length-append, append_assoc, append-nil,
}
use bksd.Storage.{
  FilePath, IoError, Bytes, OwnerIds, Disk, DiskFile, truncated, get_file, modify_file,
}
use bksd.Storage.Laws.{content-truncated, get_file-create_file, get_file-modify_file}
use bksd.Storage.Exec.{pure-eq-ok, fail-ne-ok, update-eq-ok, pure, fail, bind-eq-ok}
use bksd.Storage.Host.{Host, Blake3, IsStreaming, hash_of}
use bksd.NativeCopy.File.{
  FileCopyError, file_error, check, from_io, append_bytes, open_files, finish_file, try_modify,
  preserve_timestamps, set_owner, preserve, copy_chunks, copy_single_file,
}

abbrev prepend : Bytes → Result IoError Bytes → Result IoError Bytes
prepend bytes (ok rest) = ok (bytes ++ rest)
prepend bytes (err e) = err e

-- The bytes that reads give up to the end of the file.
unfoldable pub read_all : List (Result IoError Bytes) → Result IoError Bytes
read_all [] = ok []
read_all (err e ∷ rest) = err e
read_all (ok [] ∷ rest) = ok []
read_all (ok (b ∷ bs) ∷ rest) = prepend (b ∷ bs) (read_all rest)

abbrev read_opened : Result IoError (List (Result IoError Bytes)) → Result IoError Bytes
read_opened (ok reads) = read_all reads
read_opened (err e) = err e

-- What the device holds at a path.
abbrev pub source_content : Host → FilePath → Result IoError Bytes
source_content host path = read_opened (host.open_file path)

-- The disk has a file with these bytes at a path.
abbrev pub Holds : FilePath → Bytes → Disk → Type 0
Holds path content disk =
    (file : DiskFile) × (get_file path disk ≡ some file) × (file.content ≡ content)

Holds-modify_file :
    (path : FilePath) (change : DiskFile → DiskFile) (before after : Bytes) (disk : Disk)
    → ((file : DiskFile) → file.content ≡ before → (change file).content ≡ after)
    → Holds path before disk
    → Holds path after (modify_file path change disk)
Holds-modify_file path change before after disk keep (file, there, e) = (
  change file,
  get_file-modify_file path path change disk there ∙ ground (arith, ==_self path),
  keep file e,
)

module _ (host : Host) (dest : FilePath) (content : Bytes) where
  Holds-try_modify :
      (o : Option IoError) (change : DiskFile → DiskFile) (disk : Disk)
      → ((file : DiskFile) → (change file).content ≡ file.content)
      → Holds dest content disk
      → Holds dest content (try_modify host o dest change disk)
  unfolding try_modify
  Holds-try_modify none change disk keep h =
      Holds-modify_file dest change content content disk (λ file e. keep file ∙ e) h
  Holds-try_modify (some e) change disk keep h = h

  Holds-preserve_timestamps :
      (source : FilePath) (disk : Disk)
      → Holds dest content disk
      → Holds dest content (preserve_timestamps host source dest disk).1
  unfolding preserve_timestamps
  Holds-preserve_timestamps source disk h = elim (Result-cases (host.times source)) [
    | inr (e, k) ↦ rw (k, preserve_timestamps) h
    | inl (t, k) ↦
        rw (k, preserve_timestamps)
          (elim (Option-cases (host.set_file_times dest)) [
            | inl k' ↦
                rw (k', preserve_timestamps)
                  (Holds-modify_file dest (λ file. record file { times = some t }) content content
                    disk (λ file e. e) h)
            | inr (e, k') ↦ rw (k', preserve_timestamps) h
          ])
  ]

  Holds-set_owner :
      (ids : Option OwnerIds) (disk : Disk)
      → Holds dest content disk
      → Holds dest content (set_owner host dest ids disk)
  unfolding set_owner
  Holds-set_owner none disk h = h
  Holds-set_owner (some ids) disk h = Holds-try_modify (host.chown dest) _ disk (λ file. refl) h

  -- Permissions, times and owner are set beside the bytes.
  Holds-preserve :
      (source : FilePath) (permissions : ℕ) (ids : Option OwnerIds) (disk : Disk)
      → Holds dest content disk
      → Holds dest content (preserve host source dest permissions ids disk)
  unfolding preserve
  Holds-preserve source permissions ids disk h = Holds-set_owner ids _ (
      Holds-preserve_timestamps source _
        (Holds-try_modify (host.set_permissions dest) _ disk (λ file. refl) h))

-- A check that passes changes nothing.
check-eq-ok :
    (doing : String) (o : Option IoError) (disk : Disk) {disk' : Disk}
    → check doing o disk ≡ (ok tt, disk')
    → disk ≡ disk'
unfolding check pure fail
check-eq-ok doing none disk h = ap (λ (t : Result FileCopyError Unit × Disk). t.1) h
check-eq-ok doing (some e) disk h =
    absurd (cc (ap (λ (t : Result FileCopyError Unit × Disk). t.0) h))

from_io-eq-ok :
    {A : Type 0} (doing : String) (r : Result IoError A) (a : A) (disk : Disk) {disk' : Disk}
    → from_io doing r disk ≡ (ok a, disk')
    → (r ≡ ok a) × (disk ≡ disk')
unfolding from_io
from_io-eq-ok doing (ok x) a disk h =
    let (same, still) = pure-eq-ok {E = FileCopyError} x a disk h in (ap ok same, still)
from_io-eq-ok doing (err e) a disk h = absurd (fail-ne-ok (file_error doing e) a disk h)

module _ (B : Blake3) (host : Host) (S : IsStreaming B) (dest : FilePath) where
  -- What a successful run of the loop has read, written, counted and hashed.
  record Copied (reads : List (Result IoError Bytes)) (written n : ℕ) (hasher h : B.Hasher)
      (before : Bytes) (disk' : Disk) : Type 0 where
    content : Bytes
    read : read_all reads ≡ ok content
    counted : n ≡ (written + length content) % u64_mod
    hashed : h ≡ B.update hasher content
    holds : Holds dest (before ++ content) disk'

  Copied-end :
      (reads : List (Result IoError Bytes)) (written n : ℕ) (hasher h : B.Hasher) (before : Bytes)
      (disk : Disk) {disk' : Disk}
      → read_all reads ≡ ok []
      → written < u64_mod
      → Holds dest before disk
      → pure {E = FileCopyError} {A = ℕ × B.Hasher} (written, hasher) disk ≡ (ok (n, h), disk')
      → Copied reads written n hasher h before disk'
  Copied-end reads written n hasher h before disk r small held e =
      let (same, still) = pure-eq-ok {E = FileCopyError} (written, hasher) (n, h) disk e in
      record {
        content = [];
        read = r;
        counted = sym (ap (λ (t : ℕ × B.Hasher). t.0) same) ∙ omega arith;
        hashed = sym (ap (λ (t : ℕ × B.Hasher). t.1) same) ∙ sym (S.update-nil hasher);
        holds = rw append-nil (subst (Holds dest before) still held);
      }

  Copied-step :
      (b : ℕ) (bs : Bytes) (rest : List (Result IoError Bytes)) (written n : ℕ)
      (hasher h : B.Hasher) (before : Bytes) {disk' : Disk}
      → Copied rest
          (add_u64 written (length (b ∷ bs)))
          n
          (B.update hasher (b ∷ bs))
          h
          (before ++ b ∷ bs)
          disk'
      → Copied (ok (b ∷ bs) ∷ rest) written n hasher h before disk'
  unfolding read_all
  Copied-step b bs rest written n hasher h before {disk'} c = record {
    content = (b ∷ bs) ++ c.content;
    read = rw c.read refl;
    counted = omega (arith, c.counted, length-append (b ∷ bs) c.content);
    hashed = c.hashed ∙ S.update-append hasher (b ∷ bs) c.content;
    holds = rw (← append_assoc before (b ∷ bs) c.content) c.holds;
  }

  copy_chunks-Copied :
      (reads : List (Result IoError Bytes)) (written n : ℕ) (hasher h : B.Hasher) (before : Bytes)
      (disk : Disk) {disk' : Disk}
      → written < u64_mod
      → Holds dest before disk
      → copy_chunks B host dest reads written hasher disk ≡ (ok (n, h), disk')
      → Copied reads written n hasher h before disk'
  unfolding copy_chunks read_all
  copy_chunks-Copied [] written n hasher h before disk small held e =
      Copied-end [] written n hasher h before disk refl small held e
  copy_chunks-Copied (err x ∷ rest) written n hasher h before disk small held e =
      absurd (fail-ne-ok (file_error "Failed to read from source" x) (n, h) disk e)
  copy_chunks-Copied (ok [] ∷ rest) written n hasher h before disk small held e =
      Copied-end (ok [] ∷ rest) written n hasher h before disk refl small held e
  copy_chunks-Copied (ok (b ∷ bs) ∷ rest) written n hasher h before disk small held e =
      let (_, d1, checked, e1) = bind-eq-ok _ _ disk e in
      let (_, d2, appended, e2) = bind-eq-ok _ _ d1 e1 in
      let held1 : Holds dest before d1 =
        subst (Holds dest before) (check-eq-ok _ (host.write dest written) disk checked) held in
      let held2 : Holds dest (before ++ b ∷ bs) d2 =
        subst (Holds dest (before ++ b ∷ bs)) (update-eq-ok {E = FileCopyError} _ d1 appended) (
          Holds-modify_file dest (append_bytes (b ∷ bs)) before (before ++ b ∷ bs) d1
            (λ file k. unfold append_bytes in ap (λ c. c ++ b ∷ bs) k) held1) in
      Copied-step b bs rest written n hasher h before (
        copy_chunks-Copied rest (add_u64 written (length (b ∷ bs))) n (B.update hasher (b ∷ bs)) h
          (before ++ b ∷ bs) d2 (omega arith) held2 e2)

module _ (host : Host) where
  open_files-eq-ok :
      (source dest : FilePath) (disk : Disk) (permissions : ℕ) (reads : List (Result IoError Bytes))
      {disk' : Disk}
      → open_files host source dest disk ≡ (ok (permissions, reads), disk')
      → (host.open_file source ≡ ok reads) × Holds dest [] disk'
  unfolding open_files
  open_files-eq-ok source dest disk permissions reads e =
      let (p, d1, _, e1) = bind-eq-ok _ _ disk e in
      let (found, d2, opened, e2) = bind-eq-ok _ _ d1 e1 in
      let (_, d3, _, e3) = bind-eq-ok _ _ d2 e2 in
      let (_, d4, created, e4) = bind-eq-ok _ _ d3 e3 in
      let (read, _) = from_io-eq-ok _ (host.open_file source) found d1 opened in
      let (same, still) =
        pure-eq-ok {E = FileCopyError} {A = ℕ × List (Result IoError Bytes)} (p, found)
          (permissions, reads) d4 e4 in
      (
        read ∙ ap ok (ap (λ (t : ℕ × List (Result IoError Bytes)). t.1) same),
        subst (Holds dest []) (update-eq-ok {E = FileCopyError} _ d3 created ∙ still) (
          truncated (get_file dest d3),
          get_file-create_file dest dest d3 ∙ ground (arith, ==_self dest),
          content-truncated (get_file dest d3),
        ),
      )

  finish_file-eq-ok :
      (dest : FilePath) (sync_file : Bool) (disk : Disk) {disk' : Disk}
      → finish_file host dest sync_file disk ≡ (ok tt, disk')
      → disk ≡ disk'
  unfolding finish_file
  finish_file-eq-ok dest false disk e = check-eq-ok _ (host.flush dest) disk e
  finish_file-eq-ok dest true disk e =
      let (_, d1, flushed, e1) = bind-eq-ok _ _ disk e in
      let (_, d2, taken, e2) = bind-eq-ok _ _ d1 e1 in
      check-eq-ok _ (host.flush dest) disk flushed
      ∙ check-eq-ok _ (host.into_inner dest) d1 taken
      ∙ check-eq-ok _ (host.sync_all dest) d2 e2

module _ (B : Blake3) (host : Host) (S : IsStreaming B) where
  -- With a hasher that hashes the concatenation of its updates: a copy that succeeds has read the
  -- whole source. The destination holds exactly its bytes, the count is their number as a 64-bit
  -- number, and the hash is that of all of them.
  pub copy_single_file-copies :
      (source dest : FilePath) (sync_file : Bool) (owner_ids : Option OwnerIds) (disk : Disk)
      {n : ℕ} {h : Bytes} {disk' : Disk}
      → copy_single_file B host source dest sync_file owner_ids disk ≡ (ok (n, h), disk')
      → (content : Bytes) × (source_content host source ≡ ok content)
        × (n ≡ length content % u64_mod)
        × (h ≡ hash_of B content)
        × Holds dest content disk'
  unfolding copy_single_file
  copy_single_file-copies source dest sync_file owner_ids disk {n} {h} {disk'} e =
      let (opened, d1, e1, k1) = bind-eq-ok _ _ disk e in
      let (copied, d2, e2, k2) = bind-eq-ok _ _ d1 k1 in
      let (_, d3, e3, k3) = bind-eq-ok _ _ d2 k2 in
      let (_, d4, e4, k4) = bind-eq-ok _ _ d3 k3 in
      let (opens, empty) = open_files-eq-ok host source dest disk opened.0 opened.1 e1 in
      let c =
        copy_chunks-Copied B host S dest opened.1 0 copied.0 B.new copied.1 [] d1 (omega arith)
          empty e2 in
      let (same, still) =
        pure-eq-ok {E = FileCopyError} {A = ℕ × Bytes} (copied.0, B.finalize copied.1) (n, h) d4
          k4 in
      (
        c.content,
        ap read_opened opens ∙ c.read,
        sym (ap (λ (t : ℕ × Bytes). t.0) same) ∙ c.counted ∙ omega arith,
        sym (ap (λ (t : ℕ × Bytes). t.1) same) ∙ ap B.finalize c.hashed,
        subst (Holds dest c.content) (update-eq-ok {E = FileCopyError} _ d3 e4 ∙ still) (
            Holds-preserve host dest c.content source opened.0 owner_ids d3
              (subst (Holds dest c.content) (finish_file-eq-ok host dest sync_file d2 e3) c.holds)),
      )
