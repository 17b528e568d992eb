-- ===== src/Mongo/Server.antt =====
-- What the calls of the MongoDB driver do to a collection where they report no error: a collection is
-- a list of documents in some order. A call may always report an error, and of what it has done then
-- nothing is said. No other client writes to the collection meanwhile.
use Prim.Native.String.{String}
use free5gc_workspace.Prelude.{
  ◌≡◌, ◌≢◌, ◌⊎◌, Bool, true, false, List, [], ◌∷◌, ◌++◌, Option, none, some, if◌then◌else◌,
}
use free5gc_workspace.Prelude.Dict.{lookup}
use free5gc_workspace.Text.Decimal.{codes}
use free5gc_workspace.Text.Words.{contains_byte}
use free5gc_workspace.Mongo.Driver.{
  Collation, Collection, Document, GoMap, set, Found, found, no_documents, find_failed, Driver,
}

abbrev pub any : {A : Type 0} → (A → Bool) → List A → Bool
any p [] = false
any p (x ∷ l) = if p x then true else any p l

abbrev pub or_else : {V : Type 0} → Option V → Option V → Option V
or_else none b = b
or_else (some a) b = some a

-- A key with a dot is the path of an entry further down.
unfoldable pub is_path : String → Bool
unfolding contains_byte
is_path key = contains_byte b'.' (codes key)

abbrev pub NoPaths : {V : Type 0} → Document V → Type 0
NoPaths [] = Unit
NoPaths ((key, v) ∷ m) = (is_path key ≡ false) × NoPaths m

-- A map that is nil has no entries.
abbrev pub entries : {V : Type 0} → GoMap V → Document V
entries none = []
entries (some m) = m

-- What `$set` makes of a document: where no key is a path, an entry of the map takes the place of the
-- document's entry under its key, and the others stay.
abbrev pub SetIn : {V : Type 0} → Document V → Document V → Document V → Type 0
SetIn m d d' =
    NoPaths m
    → (key : String) → is_path key ≡ false
    → lookup key d' ≡ or_else (lookup key m) (lookup key d)

module _ {V : Type 0} (p : Document V → Bool) where
  -- Some document that matches, or that there is none.
  abbrev pub Finds : {E : Type 0} → List (Document V) → Found E V → Type 0
  Finds l (found d) =
      (before : List (Document V)) × (after : List (Document V)) × (l ≡ before ++ d ∷ after)
      × (p d ≡ true)
  Finds l no_documents = any p l ≡ false
  Finds l (find_failed e) = Unit

  -- `$set` in one document that matches: the map is not nil, which the server refuses.
  abbrev pub Replaced : GoMap V → List (Document V) → List (Document V) → Type 0
  Replaced m l l' =
      (fields : Document V) × (d : Document V) × (d' : Document V) × (before : List (Document V))
      × (after : List (Document V)) × (m ≡ some fields)
      × (l ≡ before ++ d ∷ after)
      × (p d ≡ true)
      × (l' ≡ before ++ d' ∷ after)
      × SetIn fields d d'

  -- Where no document matches, none is changed.
  abbrev pub SetsOne : GoMap V → List (Document V) → List (Document V) → Type 0
  SetsOne m l l' = ((any p l ≡ false) × (l' ≡ l)) ⊎ Replaced m l l'

-- A new document with the entries of the map; its `_id` may be one that the driver makes.
abbrev pub Inserted : {V : Type 0} → GoMap V → List (Document V) → List (Document V) → Type 0
Inserted {V} m l l' =
    (d : Document V) × (before : List (Document V)) × (after : List (Document V)) × (l
      ≡ before ++ after)
    × (l' ≡ before ++ d ∷ after)
    × ((key : String) → key ≢ "_id" → lookup key d ≡ lookup key (entries m))

pub record Server (D : Driver) : Type 0 where
  pub content : D.Db → Collection D.Client → List (Document D.Value)
  pub matches : D.Filter → Option Collation → Document D.Value → Bool
  pub answers_find_one :
      (s : D.Db) (c : Collection D.Client) (f : D.Filter) (k : Option Collation)
      → Finds (matches f k) (content s c) (D.find_one s c f k)
  pub answers_set :
      (s s' : D.Db) (c : Collection D.Client) (f : D.Filter) (m : GoMap D.Value)
      (k : Option Collation)
      → D.update_one s c f (set m) k ≡ (s', none)
      → SetsOne (matches f k) m (content s c) (content s' c)
  pub answers_insert :
      (s s' : D.Db) (c : Collection D.Client) (m : GoMap D.Value)
      → D.insert_one s c m ≡ (s', none)
      → Inserted m (content s c) (content s' c)
