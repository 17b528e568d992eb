-- ===== src/Version/Tests.antt =====
-- The text of a program without a version.
use free5gc_workspace.Prelude.{◌≡◌, refl, [], ◌∷◌, ◌++◌}
use free5gc_workspace.Text.Decimal.{codes}
use free5gc_workspace.Version.{get_version}

no_version :
    get_version
      (record { version = []; build_time = codes "now"; commit_hash = []; commit_time = [] })
      (record { go_version = codes "go1.21"; os = codes "linux"; arch = codes "amd64" })
    ≡ 10 ∷ 9 ∷ codes "Not specify ldflags (which link version) during go build"
      ++ 10 ∷ 9 ∷ codes "go version: go1.21 linux/amd64"
unfolding get_version
no_version = refl
