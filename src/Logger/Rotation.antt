-- ===== src/Logger/Rotation.antt =====
-- The name under which an old log file is kept.
use free5gc_workspace.Prelude.{
  ℕ, ◌+◌, ◌≤◌, ◌≡◌, ◌≢◌, refl, ap, sym, ◌∙◌, ◌⊎◌, true, false, inl, inr, List, [], ◌∷◌, ◌++◌, some,
  All, arith,
}
use free5gc_workspace.Prelude.Outcome.{returns}
use free5gc_workspace.Prelude.Run
use free5gc_workspace.Text.Decimal.{Bytes, codes, format, scan, scan-format}
use free5gc_workspace.Text.Path.{split_path}
use free5gc_workspace.Text.Search.{contains_text, contains_text-append}
use mathlib.Core.List.{append_assoc, append_cancel_left}
use free5gc_workspace.Logger.{
  Os, DirEntry, rename_failed, count_files, or_error, rename_old_log_file,
}

abbrev pub kept_name : Bytes → ℕ → Bytes
kept_name file_name k = file_name ++ (codes "." ++ format k)

-- An entry whose name has not the text, or one with a number that is at most `n`.
abbrev pub Numbered : Bytes → ℕ → DirEntry → Type 0
Numbered file_name n e =
    (contains_text e.name (file_name ++ codes ".") ≡ false)
    ⊎ ((k : ℕ) × (k ≤ n) × (e.name ≡ kept_name file_name k))

-- No number is above the count of the files that have the text.
abbrev pub IsTidy : Bytes → List DirEntry → Type 0
IsTidy file_name contents =
    All (Numbered file_name (count_files (file_name ++ codes ".") contents)) contents

contains_text-kept_name :
    (file_name : Bytes) (k : ℕ)
    → contains_text (kept_name file_name k) (file_name ++ codes ".") ≡ true
contains_text-kept_name file_name k =
    rw (sym (append_assoc file_name (codes ".") (format k)))
      (contains_text-append (file_name ++ codes ".") (format k))

kept_name-injective :
    (file_name : Bytes) (j k : ℕ) → kept_name file_name j ≡ kept_name file_name k → j ≡ k
kept_name-injective file_name j k e =
    let same : b'.' ∷ format j ≡ b'.' ∷ format k = append_cancel_left file_name _ _ e in
    let digits : format j ≡ format k = cc in
    let scanned : some j ≡ some k =
      sym (scan-format j) ∙ ap (λ s. scan s 0) digits ∙ scan-format k in
    cc

Numbered-fresh :
    (file_name : Bytes) (n : ℕ) (e : DirEntry)
    → Numbered file_name n e
    → e.name ≢ kept_name file_name (n + 1)
Numbered-fresh file_name n e (inl lacks) same =
    let clash : true ≡ false =
      sym (contains_text-kept_name file_name (n + 1))
      ∙ ap (λ s. contains_text s (file_name ++ codes ".")) (sym same)
      ∙ lacks in
    cc
Numbered-fresh file_name n e (inr (k, below, named)) same =
    let equal : k ≡ n + 1 = kept_name-injective file_name k (n + 1) (sym named ∙ same) in
    omega arith

Numbered-grows :
    (file_name : Bytes) (m n : ℕ)
    → n ≤ m
    → (e : DirEntry) → Numbered file_name n e
    → Numbered file_name m e
Numbered-grows file_name m n le e (inl lacks) = inl lacks
Numbered-grows file_name m n le e (inr (k, below, named)) = inr (k, omega arith, named)

All-map :
    {P Q : DirEntry → Type 0}
    → ((e : DirEntry) → P e → Q e)
    → (es : List DirEntry) → All P es
    → All Q es
All-map f [] h = tt
All-map f (e ∷ es) h = (f e h.0, All-map f es h.1)

-- Where a log file exists in a directory none of whose numbers is above the count of the files with
-- numbers, the file is renamed to a name that no entry of the directory has, and with that entry the
-- directory is again one of that kind.
pub rename_old_log_file-IsTidy :
    (os : Os) (file dir file_name : Bytes) (contents : List DirEntry) (s : os.State)
    → split_path file ≡ (dir, file_name)
    → os.is_not_exist file s ≡ false
    → os.read_dir dir s ≡ returns contents
    → IsTidy file_name contents
    → (kept : Bytes) × (rename_old_log_file os file s
        ≡ or_error (os.rename file (dir ++ kept)) (rename_failed (dir ++ kept)) s)
      × All (λ e. e.name ≢ kept) contents
      × IsTidy file_name ((record { name = kept; is_dir = false }) ∷ contents)
unfolding rename_old_log_file Run.◌>>=◌ or_error count_files
rename_old_log_file-IsTidy os file dir file_name contents s parts here read tidy =
    let n = count_files (file_name ++ codes ".") contents in
    let new : DirEntry = record { name = kept_name file_name (n + 1); is_dir = false } in
    let m = count_files (file_name ++ codes ".") (new ∷ contents) in
    let counted : m ≡ n + 1 = rw (contains_text-kept_name file_name (n + 1)) refl in
    (
      kept_name file_name (n + 1),
      rw (parts, here, read) refl,
      All-map (Numbered-fresh file_name n) contents tidy,
      (
        inr (n + 1, omega arith, refl),
        All-map (Numbered-grows file_name m n (omega arith)) contents tidy,
      ),
    )
