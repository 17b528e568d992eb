-- ===== src/Logger.antt =====
-- lib/util/logger/logger.go: the log file and the hook that writes to it. What the operating system
-- does is a record of operations over its state; a formatter is what it makes of an entry.
pub mod Rotation
pub mod Gin
mod Tests
use free5gc_workspace.Prelude.{
  ℕ, ◌+◌, Bool, true, false, not, ◌&&◌, List, [], ◌∷◌, ◌++◌, Option, none, some, if◌then◌else◌,
}
use free5gc_workspace.Prelude.Int.{ℤ}
use free5gc_workspace.Prelude.Outcome.{Outcome, returns, fails, panics}
use free5gc_workspace.Prelude.Run.{Run, ◌>>=◌, ◌>>◌, gives}
use free5gc_workspace.Text.Decimal.{Bytes, codes, format, atoi}
use free5gc_workspace.Text.Path.{split_path, clean, join_two}
use free5gc_workspace.Text.Search.{contains_text}

-- What `os.ReadDir` says of a file.
pub record DirEntry : Type 0 where
  pub name : Bytes
  pub is_dir : Bool

-- The operations of package os that the logger uses; a set of flags is a number.
pub record Os : Type 1 where
  pub State : Type 0
  pub File : Type 0
  pub Err : Type 0
  pub is_not_exist : Bytes → State → Bool
  pub read_dir : Bytes → State → Outcome Err (List DirEntry)
  pub rename : Bytes → Bytes → Run State Err (Unit {0})
  pub mkdir_all : Bytes → ℕ → Run State Err (Unit {0})
  pub chown : Bytes → ℤ → ℤ → Run State Err (Unit {0})
  pub open_file : Bytes → ℕ → ℕ → Run State Err File
  pub close : File → Run State Err (Unit {0})
  pub write_string : File → Bytes → Run State Err (Unit {0})
  pub getenv : Bytes → Bytes
  pub create_append_rdwr : ℕ

pub data LogError (E : Type 0) : Type 0 where
  no_file_path nil_logger : LogError E
  make_dir_failed read_dir_failed rename_failed chown_failed open_failed close_failed :
      Bytes → E → LogError E
  format_failed : E → LogError E
  write_failed : Bytes → E → LogError E

change_error : {S E F A : Type 0} → (E → F) → S × Outcome E A → S × Outcome F A
change_error f (s, returns a) = (s, returns a)
change_error f (s, fails e) = (s, fails (f e))
change_error f (s, panics) = (s, panics)

-- A call whose error is wrapped.
unfoldable pub or_error : {S E F A : Type 0} → Run S E A → (E → F) → Run S F A
unfolding change_error
or_error call f s = change_error f (call s)

-- The formatter's order of the fields, where it is the nested one; `Entry` is what is logged.
pub record FileHook (File Entry E : Type 0) : Type 0 where
  pub file : File
  pub flag : ℕ
  pub chmod : ℕ
  pub formatter : Entry → Outcome E Bytes

pub record Logger (File Entry E : Type 0) : Type 0 where
  pub fields_order : Option (List Bytes)
  pub hooks : List (FileHook File Entry E)

pub data Level : Type 0 where
  panic_level fatal_level error_level warn_level info_level debug_level trace_level : Level

-- `Levels`: the levels at which the hook is called.
abbrev pub levels : List Level
levels =
    panic_level ∷ fatal_level ∷ error_level ∷ warn_level ∷ info_level ∷ debug_level ∷ trace_level
    ∷ []

-- `New`: a logger without hooks. How it prints a caller is left out.
unfoldable pub new_logger : {File Entry E : Type 0} → List Bytes → Logger File Entry E
new_logger fields_order = record { fields_order = some fields_order; hooks = [] }

-- How many files have the text in their names.
unfoldable pub count_files : Bytes → List DirEntry → ℕ
unfolding contains_text
count_files text [] = 0
count_files text (e ∷ es) =
    let rest = count_files text es in
    if not e.is_dir && contains_text e.name text then rest + 1 else rest

abbrev pub new_name : Bytes → Bytes → ℕ → Bytes
new_name file_dir file_name counter = file_dir ++ (file_name ++ (codes "." ++ format (counter + 1)))

abbrev pub own_dir : ℕ
own_dir = 488

module _ (os : Os) where
  abbrev pub Call : Type 0 → Type 0
  Call A = Run os.State (LogError os.Err) A

  unfoldable pub rename_old_log_file : Bytes → Call (Unit {0})
  unfolding split_path count_files or_error ◌>>=◌
  rename_old_log_file file s =
      let (file_dir, file_name) = split_path file in
      let renamed =
        (or_error (λ s. (s, os.read_dir file_dir s)) (read_dir_failed file_dir) >>= λ contents.
        let new_file =
          new_name file_dir file_name (count_files (file_name ++ codes ".") contents) in
        or_error (os.rename file new_file) (rename_failed new_file))
          s in
      if os.is_not_exist file s then (s, returns tt) else renamed

  -- The directory and the file are given to the user of sudo.
  give_away : Bytes → Bytes → Option ℤ → Option ℤ → Call (Unit {0})
  unfolding or_error clean ◌>>=◌ ◌>>◌ gives
  give_away dir file (some uid) (some gid) = do
    or_error (os.chown dir uid gid) (chown_failed dir)
    f ← or_error (os.open_file (clean file) os.create_append_rdwr 384) (open_failed file)
    or_error (os.close f) (close_failed file)
    or_error (os.chown file uid gid) (chown_failed file)
  give_away dir file none gid = gives tt
  give_away dir file (some uid) none = gives tt

  -- `createLogFile` from where the directory and the name are known.
  create_in : Bytes → Bytes → Bool → Call Bytes
  unfolding rename_old_log_file give_away or_error atoi ◌>>=◌ ◌>>◌ gives
  create_in dir file rename = do
    (if rename then rename_old_log_file file else gives tt)
    or_error (os.mkdir_all dir own_dir) (make_dir_failed dir)
    give_away dir file (atoi (os.getenv (codes "SUDO_UID"))) (atoi (os.getenv (codes "SUDO_GID")))
    gives file

  named_file : Bytes → Bytes → Bytes → Bool → Call Bytes
  unfolding create_in join_two
  named_file dir [] file rename = λ s. (s, fails no_file_path)
  named_file [] (c ∷ name) file rename =
      create_in (codes "./log/") (join_two (codes "./log/") (c ∷ name)) rename
  named_file (d ∷ dir) (c ∷ name) file rename = create_in (d ∷ dir) file rename

  unfoldable pub create_log_file : Bytes → Bool → Call Bytes
  unfolding named_file split_path
  create_log_file file rename =
      let (dir, file_name) = split_path file in named_file dir file_name file rename

  -- The formatter of the nested-logrus-formatter with an order of the fields is an argument.
  module _ {Entry : Type 0} (nested : List Bytes → Entry → Outcome os.Err Bytes) where
    abbrev pub Hook : Type 0
    Hook = FileHook os.File Entry os.Err

    unfoldable pub new_file_hook : Bytes → ℕ → ℕ → List Bytes → Call Hook
    unfolding or_error clean ◌>>=◌ gives
    new_file_hook file flag chmod fields_order = do
      log_file ← or_error (os.open_file (clean file) flag chmod) (open_failed file)
      gives
          (record { file = log_file; flag = flag; chmod = chmod; formatter = nested fields_order })

    order_of : Option (List Bytes) → List Bytes
    order_of none = []
    order_of (some order) = order

    -- The logger with the hook; none is a nil logger.
    unfoldable pub log_file_hook :
        Option (Logger os.File Entry os.Err) → Bytes → Call (Logger os.File Entry os.Err)
    unfolding create_log_file new_file_hook order_of ◌>>=◌ gives
    log_file_hook none log_path = λ s. (s, fails nil_logger)
    log_file_hook (some log) log_path = do
      file_path ← create_log_file log_path false
      hook ← new_file_hook file_path os.create_append_rdwr 438 (order_of log.fields_order)
      gives (record log { hooks = log.hooks ++ hook ∷ [] })

  formatted : {A : Type 0} → Outcome os.Err A → Call A
  formatted (returns line) s = (s, returns line)
  formatted (fails e) s = (s, fails (format_failed e))
  formatted panics s = (s, panics)

  -- `Fire`
  unfoldable pub fire_hook :
      {Entry : Type 0} → FileHook os.File Entry os.Err → Entry → Call (Unit {0})
  unfolding formatted or_error ◌>>=◌
  fire_hook h entry = do
    line ← formatted (h.formatter entry)
    or_error (os.write_string h.file line) (write_failed line)
