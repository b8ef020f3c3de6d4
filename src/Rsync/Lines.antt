-- ===== src/Rsync/Lines.antt =====
-- The loop over the output of rsync against a reading of its lines.
use bksd.Base.{
  ℕ, ◌≡◌, refl, ap, ◌∙◌, true, false, not, Option, none, some, List, [], ◌∷◌, ◌++◌, map, select,
  is_empty, if◌then◌else◌, append_assoc, append-nil, Bool-cases, ◌⊎◌, inl, inr,
}
use bksd.Base.Options.{filter_map, cons_some}
use bksd.Storage.{Bytes}
use bksd.Rsync.{is_line_end, bytes_of_group, update_of, Reading, report_line, read_output}

-- The pieces between the line ends, the last of them open.
abbrev pub prepend : Bytes → List Bytes → List Bytes
prepend line [] = line ∷ []
prepend line (piece ∷ pieces) = (line ++ piece) ∷ pieces

unfoldable pub split_lines : Bytes → List Bytes
split_lines [] = [] ∷ []
split_lines (b ∷ output) =
    if is_line_end b then [] ∷ split_lines output else prepend (b ∷ []) (split_lines output)

abbrev pub all_but_last {ℓ} : {A : Type ℓ} → List A → List A
all_but_last [] = []
all_but_last (x ∷ []) = []
all_but_last (x ∷ y ∷ xs) = x ∷ all_but_last (y ∷ xs)

abbrev pub last_or : ℕ → List ℕ → ℕ
last_or n [] = n
last_or n (m ∷ ms) = last_or m ms

module _ (captures : Bytes → Option (Bytes × Bytes)) where
  -- The progress lines among some lines, by their groups.
  abbrev pub progress_groups : List Bytes → List (Bytes × Bytes)
  progress_groups lines = filter_map captures (select (λ line. not (is_empty line)) lines)

  abbrev reading : ℕ → List (Bytes × Bytes) → Reading
  reading last groups = (last_or last (map (λ g. bytes_of_group g.0) groups), map update_of groups)

  report_line-reading :
      (o : Option (Bytes × Bytes)) (last : ℕ) (rest : ℕ → Reading) (groups : List (Bytes × Bytes))
      → ((n : ℕ) → rest n ≡ reading n groups)
      → report_line o last rest ≡ reading last (cons_some o groups)
  report_line-reading none last rest groups h = h last
  report_line-reading (some g) last rest groups h =
      ap (λ (after : Reading). (after.0, update_of g ∷ after.1)) (h (bytes_of_group g.0))

  split_lines-cons :
      (output : Bytes)
      → (piece : Bytes) × (pieces : List Bytes) × (split_lines output ≡ piece ∷ pieces)
  unfolding split_lines
  split_lines-cons [] = ([], [], refl)
  split_lines-cons (b ∷ output) =
      let (piece, pieces, e) = split_lines-cons output in
      elim (Bool-cases (is_line_end b)) [
        | inl ends ↦ ([], split_lines output, rw ends refl)
        | inr goes ↦ (b ∷ piece, pieces, rw (goes, e) refl)
      ]

  groups_of : List Bytes → List (Bytes × Bytes)
  groups_of pieces = progress_groups (all_but_last pieces)

  -- What a piece more means, where there are others.
  groups_of-ended :
      (line : Bytes) (pieces : List Bytes) (p : Bytes) (ps : List Bytes)
      → pieces ≡ p ∷ ps
      → groups_of ((line ++ []) ∷ pieces) ≡ (
          if is_empty line
          then groups_of (prepend [] pieces)
          else cons_some (captures line) (groups_of (prepend [] pieces)))
  unfolding groups_of
  groups_of-ended [] pieces p ps e = rw e refl
  groups_of-ended (c ∷ line) pieces p ps e = rw (e, append-nil line) refl

  groups_of-pushed :
      (line : Bytes) (b : ℕ) (pieces : List Bytes) (p : Bytes) (ps : List Bytes)
      → pieces ≡ p ∷ ps
      → groups_of (prepend (line ++ b ∷ []) pieces)
        ≡ groups_of (prepend line (prepend (b ∷ []) pieces))
  groups_of-pushed line b pieces p ps e = rw (e, append_assoc line (b ∷ []) p) refl

  read_output-reading :
      (line : Bytes) (last : ℕ) (output : Bytes)
      → read_output captures line last output
        ≡ reading last (groups_of (prepend line (split_lines output)))
  unfolding read_output split_lines groups_of
  read_output-reading line last [] = refl
  read_output-reading line last (b ∷ output) =
      go (Bool-cases (is_line_end b)) (read_output-reading line last output)
        (read_output-reading (line ++ b ∷ []) last output) (λ n. read_output-reading [] n output)
        (split_lines-cons output)
    where
      pieces : List Bytes
      pieces = split_lines output

      by_line :
          (l : Bytes) {skip report : Reading}
          → skip ≡ reading last (groups_of (prepend l pieces))
          → report ≡ reading last (cons_some (captures l) (groups_of (prepend [] pieces)))
          → (if is_empty l then skip else report)
            ≡ reading last (
                if is_empty l
                then groups_of (prepend [] pieces)
                else cons_some (captures l) (groups_of (prepend [] pieces)))
      by_line [] skip report = skip
      by_line (c ∷ l) skip report = report

      go :
          (is_line_end b ≡ true) ⊎ (is_line_end b ≡ false)
          → read_output captures line last output ≡ reading last (groups_of (prepend line pieces))
          → read_output captures (line ++ b ∷ []) last output
            ≡ reading last (groups_of (prepend (line ++ b ∷ []) pieces))
          → ((n : ℕ) → read_output captures [] n output ≡ reading n (groups_of (prepend [] pieces)))
          → (p : Bytes) × (ps : List Bytes) × (pieces ≡ p ∷ ps)
          → read_output captures line last (b ∷ output)
            ≡ reading last (groups_of (prepend line (split_lines (b ∷ output))))
      go (inr goes) skip push fresh (p, ps, e) =
          rw goes (push ∙ ap (reading last) (groups_of-pushed line b pieces p ps e))
      go (inl ends) skip push fresh (p, ps, e) =
          rw (ends, groups_of-ended line pieces p ps e)
            (by_line line skip (report_line-reading (captures line) last _ _ fresh))

  -- From the start of the output, the engine reports one update for each line that ends, is not
  -- empty and matches the pattern of a progress line, in their order and with the numbers of that
  -- line, and it remembers the bytes of the last of them, or 0. Lines end at a carriage return or a
  -- line feed, and what follows the last of these is not read.
  pub read_output-split_lines :
      (output : Bytes)
      → let groups = progress_groups (all_but_last (split_lines output)) in
        read_output captures [] 0 output
        ≡ (last_or 0 (map (λ g. bytes_of_group g.0) groups), map update_of groups)
  unfolding groups_of
  read_output-split_lines output =
      let (p, ps, e) = split_lines-cons output in
      read_output-reading [] 0 output
      ∙ ap (λ pieces. reading 0 (groups_of pieces)) (same (split_lines output) p ps e)
    where
      same :
          (pieces : List Bytes) (p : Bytes) (ps : List Bytes)
          → pieces ≡ p ∷ ps
          → prepend [] pieces ≡ pieces
      same pieces p ps e = rw e refl
