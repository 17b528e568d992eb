-- ===== src/Text/Path.antt =====
-- What is used of package filepath, on paths with slashes: Split, Clean and Join.
use free5gc_workspace.Prelude.{Bool, ◌||◌, List, [], ◌∷◌, ◌++◌, ◌==◌, if◌then◌else◌}
use free5gc_workspace.Text.Decimal.{Bytes, codes}
use free5gc_workspace.Text.Words.{text_eq, split_at, join, contains_byte}

abbrev pub slash : Bytes
slash = b'/' ∷ []

-- The directory, which ends in the last slash, and the name behind it.
unfoldable pub split_path : Bytes → Bytes × Bytes
unfolding contains_byte
split_path [] = ([], [])
split_path (c ∷ s) =
    let parts = split_path s in
    if c == b'/' || contains_byte b'/' s then (c ∷ parts.0, parts.1) else ([], c ∷ s)

-- `..` behind the elements that stay, the last first: it takes one away, and the root has none above it.
step_back : Bool → List Bytes → List Bytes
unfolding text_eq
step_back rooted [] = if rooted then [] else codes ".." ∷ []
step_back rooted (k ∷ kept) = if text_eq k (codes "..") then codes ".." ∷ k ∷ kept else kept

add_element : Bool → List Bytes → Bytes → List Bytes
unfolding text_eq step_back
add_element rooted kept e =
    if text_eq e [] || text_eq e (codes ".")
    then kept
    else if text_eq e (codes "..")
    then step_back rooted kept
    else e ∷ kept

-- The elements of a path that stay, the last first.
unfoldable pub clean_elements : Bool → List Bytes → List Bytes → List Bytes
unfolding add_element
clean_elements rooted kept [] = kept
clean_elements rooted kept (e ∷ es) = clean_elements rooted (add_element rooted kept e) es

reverse_onto : List Bytes → List Bytes → List Bytes
reverse_onto [] done = done
reverse_onto (x ∷ xs) done = reverse_onto xs (x ∷ done)

-- The empty path is the current directory.
dot_if_empty : Bytes → Bytes
dot_if_empty [] = codes "."
dot_if_empty (c ∷ s) = c ∷ s

unfoldable pub clean : Bytes → Bytes
unfolding clean_elements reverse_onto dot_if_empty split_at join
clean [] = codes "."
clean (c ∷ s) =
    let kept =
      join slash (reverse_onto (clean_elements (c == b'/') [] (split_at b'/' (c ∷ s))) []) in
    if c == b'/' then b'/' ∷ kept else dot_if_empty kept

-- `filepath.Join` of two elements that are not empty.
unfoldable pub join_two : Bytes → Bytes → Bytes
unfolding clean
join_two dir name = clean (dir ++ (slash ++ name))
