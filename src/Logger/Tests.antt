-- ===== src/Logger/Tests.antt =====
-- The logger on a small file system and on concrete requests, and the theorems there.
use free5gc_workspace.Prelude.{
  ℕ, ◌≡◌, ◌≢◌, ◌⊎◌, inl, inr, refl, true, false, List, [], ◌∷◌, ◌++◌, Option, none, some, All,
  arith,
}
use free5gc_workspace.Prelude.Outcome.{returns, fails}
use free5gc_workspace.Text.Decimal.{Bytes, codes, format, atoi}
use free5gc_workspace.Text.Words.{text_eq, contains_byte}
use free5gc_workspace.Text.Search.{contains_text, contains_byte-Lacks}
use free5gc_workspace.Text.Path.{split_path, clean}
use free5gc_workspace.Logger.{
  Os, DirEntry, no_file_path, rename_failed, count_files, or_error, rename_old_log_file,
  create_log_file,
}
use free5gc_workspace.Logger.Rotation.{IsTidy, rename_old_log_file-IsTidy}
use free5gc_workspace.Logger.Gin.{
  Gin, Claims, map_claims, op_error, other_panic, type_assertion, served, broken, panicked, done,
  in_panic, gin_recover, new_gin_with_logrus, redacted, is_broken_pipe,
}
use free5gc_workspace.Logger.Gin.Recovery.{NoEmail, new_gin_with_logrus-Answered}
use free5gc_workspace.Logger.Gin.Secrets.{with_credentials, gin_recover_hides}

-- The entries of one directory.
abbrev names : List DirEntry → List Bytes
names [] = []
names (e ∷ es) = e.name ∷ names es

abbrev entry_of : Bytes → DirEntry
entry_of name = record { name = name; is_dir = false }

-- A system whose calls succeed, whose state is what is in the directory and which files were opened;
-- a file is its path.
abbrev small : Bytes → Os
small sudo = record {
  State = List DirEntry × List Bytes;
  File = Bytes;
  Err = ℕ;
  is_not_exist = λ path s. false;
  read_dir = λ path s. returns s.0;
  rename = λ old new s. (((entry_of new) ∷ s.0, s.1), returns tt);
  mkdir_all = λ path mode s. (s, returns tt);
  chown = λ path uid gid s. (s, returns tt);
  open_file = λ path flag mode s. ((s.0, path ∷ s.1), returns path);
  close = λ file s. (s, returns tt);
  write_string = λ file text s. (s, returns tt);
  getenv = λ key. sudo;
  create_append_rdwr = 1;
}

abbrev log_dir : List DirEntry
log_dir = entry_of (codes "amf.log") ∷ entry_of (codes "amf.log.1") ∷ []

log_dir-IsTidy : IsTidy (codes "amf.log") log_dir
unfolding count_files contains_text format
log_dir-IsTidy = (inl refl, (inr (1, omega arith, refl), tt))

rename_old_log_file-IsTidy_example :
    (kept : Bytes) × (rename_old_log_file (small []) (codes "log/amf.log") (log_dir, [])
      ≡ or_error
          ((small []).rename (codes "log/amf.log") (codes "log/" ++ kept))
          (rename_failed (codes "log/" ++ kept))
          (log_dir, []))
    × All (λ e. e.name ≢ kept) log_dir
    × IsTidy (codes "amf.log") (entry_of kept ∷ log_dir)
unfolding split_path contains_byte
rename_old_log_file-IsTidy_example =
    rename_old_log_file-IsTidy (small []) (codes "log/amf.log") (codes "log/") (codes "amf.log")
      log_dir (log_dir, []) refl refl refl log_dir-IsTidy

-- With a gap in the numbers the old log takes the place of another one.
renamed_over :
    rename_old_log_file
      (small [])
      (codes "log/amf.log")
      (entry_of (codes "amf.log") ∷ entry_of (codes "amf.log.2") ∷ [], [])
    ≡ (
      (
        (entry_of (codes "log/amf.log.2"))
            ∷ entry_of (codes "amf.log")
            ∷ entry_of (codes "amf.log.2")
            ∷ [],
        [],
      ),
      returns tt,
    )
unfolding rename_old_log_file format
renamed_over = refl

create_log_file_nameless :
    create_log_file (small []) (codes "log/") false (log_dir, [])
    ≡ ((log_dir, []), fails no_file_path)
unfolding create_log_file
create_log_file_nameless = refl

create_log_file_short :
    create_log_file (small (codes "1000")) (codes "amf.log") false (log_dir, [])
    ≡ ((log_dir, codes "log/amf.log" ∷ []), returns (codes "log/amf.log"))
unfolding create_log_file clean atoi
create_log_file_short = refl

clean_path : clean (codes "/a/./b//../c/..") ≡ codes "/a"
unfolding clean
clean_path = refl

-- A context: its status, the email of its claims, and the dump of its request.
abbrev tiny : Gin
tiny = record {
  Context = ℕ × Option Claims × Bytes;
  Err = Unit {0};
  path = λ c. codes "/nf";
  raw_query = λ c. codes "id=1";
  client_ip = λ c. codes "10.0.0.1";
  method = λ c. codes "GET";
  status = λ c. c.0;
  private_errors = λ c. [];
  claims = λ c. c.1;
  dump_request = λ c. inr c.2;
  add_error = λ e c. c;
  abort = λ c. c;
  abort_with_status = λ status c. (status, c.1, c.2);
}

served_panic :
    new_gin_with_logrus tiny false []
      (λ c. ([], in_panic (other_panic (codes "nil map")) c))
      (200, none, [])
    ≡ (
      panicked (other_panic (codes "nil map"))
          ∷ served 500 (codes "10.0.0.1") (codes "GET") (codes "/nf?id=1") [] []
          ∷ [],
      done (500, none, []),
    )
unfolding new_gin_with_logrus
served_panic = refl

abbrev dump : Bytes → Bytes
dump = with_credentials (codes "GET /nf HTTP/1.1") (codes "Host: amf" ∷ []) ([] ∷ [] ∷ [])

dump-redacted : redacted (dump (codes " Bearer secret")) ≡ dump (codes " *")
unfolding redacted text_eq
dump-redacted = refl

-- A request over a connection that breaks is logged with its credentials.
logged_broken :
    (gin_recover tiny true false
      (λ c. ([], in_panic (op_error (codes "write: Broken pipe")) c))
      (200, none, dump (codes " secret"))).0
    ≡ broken (op_error (codes "write: Broken pipe")) (dump (codes " secret")) ∷ []
unfolding gin_recover contains_text text_eq
logged_broken = refl

new_gin_with_logrus-Answered_example :
    let e =
      (new_gin_with_logrus tiny false [] (λ c. ([], done c)) (200, some (map_claims none), [])).1 in
    ((e ≡ done (200, some (map_claims none), [])) × (NoEmail (some (map_claims none)) → ⊥))
    ⊎ ((e ≡ in_panic type_assertion (200, some (map_claims none), []))
        × NoEmail (some (map_claims none)))
new_gin_with_logrus-Answered_example =
    new_gin_with_logrus-Answered tiny false (λ c. ([], done c)) (200, some (map_claims none), [])

gin_recover_hides_example :
    (gin_recover tiny true true
      (λ c. ([], in_panic type_assertion c))
      (200, none, dump (codes " a"))).0
    ≡ (gin_recover tiny true true
        (λ c. ([], in_panic type_assertion c))
        (200, none, dump (codes " b"))).0
unfolding contains_byte is_broken_pipe
gin_recover_hides_example =
    gin_recover_hides tiny true true (λ c. ([], in_panic type_assertion c)) [] type_assertion
      (200, none, dump (codes " a")) (200, none, dump (codes " b")) (200, none, dump (codes " a"))
      (200, none, dump (codes " b")) (codes "GET /nf HTTP/1.1") (codes "Host: amf" ∷ [])
      ([] ∷ [] ∷ []) (codes " a") (codes " b")
      (
        contains_byte-Lacks 13 (codes "GET /nf HTTP/1.1") refl,
        (contains_byte-Lacks 13 (codes "Host: amf") refl, tt),
      )
      (tt, (tt, tt)) (refl, (refl, tt)) (refl, (refl, tt)) refl refl refl refl refl

clean_up : clean (codes "a/../../b") ≡ codes "../b"
unfolding clean
clean_up = refl

clean_root : clean (codes "/../..") ≡ codes "/"
unfolding clean
clean_root = refl
