-- ===== src/Version.antt =====
-- lib/util/version/version.go. The variables are set when a program is built.
mod Tests
use free5gc_workspace.Prelude.{ℕ, List, [], ◌∷◌, ◌++◌}
use free5gc_workspace.Text.Decimal.{Bytes, codes}

pub record Build : Type 0 where
  pub version : Bytes
  pub build_time : Bytes
  pub commit_hash : Bytes
  pub commit_time : Bytes

-- What package runtime tells.
pub record Go : Type 0 where
  pub go_version : Bytes
  pub os : Bytes
  pub arch : Bytes

abbrev pub platform : Go → Bytes
platform go = go.go_version ++ (codes " " ++ (go.os ++ (codes "/" ++ go.arch)))

-- A new line, a tab, and a title with its text.
abbrev pub entry : Bytes → Bytes → Bytes
entry title text = 10 ∷ 9 ∷ title ++ text

-- The text for a version, which may be empty.
text_for : Bytes → Build → Go → Bytes
text_for [] build go =
    entry (codes "Not specify ldflags (which link version) during go build") []
    ++ entry (codes "go version: ") (platform go)
text_for (c ∷ version) build go =
    entry (codes "free5GC version: ") (c ∷ version)
    ++ (entry (codes "build time:      ") build.build_time
        ++ (entry (codes "commit hash:     ") build.commit_hash
            ++ (entry (codes "commit time:     ") build.commit_time
                ++ entry (codes "go version:      ") (platform go))))

unfoldable pub get_version : Build → Go → Bytes
unfolding text_for
get_version build go = text_for build.version build go
