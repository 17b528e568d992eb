-- ===== src/Mongo/Api.antt =====
-- lib/util/mongoapi/mongoapi.go. A function takes the package's variables and the database, and gives
-- the database back with its result. Timeouts and the closing of a cursor are left out. Of an error
-- the text that is put before it is kept.
use Prim.Native.String.{String}
use free5gc_workspace.Prelude.{◌⊎◌, inl, inr, Bool, true, false, List, [], ◌∷◌, Option, none, some}
use mathlib.Core.Option
use free5gc_workspace.Prelude.Int.{ℤ}
use free5gc_workspace.Prelude.Dict.{delete_key}
use free5gc_workspace.Prelude.Outcome.{Outcome, returns, fails, panics}
use free5gc_workspace.Prelude.Run.{Run}
use free5gc_workspace.Mongo.Driver.{
  Collation, Collection, Document, GoMap, Found, found, no_documents, find_failed, Cursor, Driver,
}

-- An element of `argOpt ...interface{}`.
pub data ArgOpt : Type 0 where
  int_arg : ℤ → ArgOpt
  other_arg : ArgOpt

unfoldable pub get_collation : List ArgOpt → Option Collation
get_collation [] = none
get_collation (int_arg strength ∷ rest) = some (record { locale = "en_US"; strength = strength })
get_collation (other_arg ∷ rest) = none

pub data MongoError (E : Type 0) : Type 0 where
  labelled : String → E → MongoError E

-- The variables `Client` and `dbName`.
pub record Package (Client : Type 0) : Type 0 where
  pub client : Option Client
  pub db_name : String

unfoldable pub get_collection : {C : Type 0} → Package C → String → Collection C
get_collection p coll_name = record {
  client = p.client;
  db_name = p.db_name;
  coll_name = coll_name;
}

-- The steps of a function: the error of a call is returned at once, under the label.
unfoldable pub attempt : {S E A : Type 0} → String → Outcome E A → Run S (MongoError E) A
attempt label (returns a) s = (s, returns a)
attempt label (fails e) s = (s, fails (labelled label e))
attempt label panics s = (s, panics)

changed : {S E : Type 0} → String → S × Option E → S × Outcome (MongoError E) (Unit {0})
changed label (s, none) = (s, returns tt)
changed label (s, some e) = (s, fails (labelled label e))

unfoldable pub reads : {S E A : Type 0} → String → (S → Outcome E A) → Run S (MongoError E) A
unfolding attempt
reads label f s = attempt label (f s) s

unfoldable pub writes :
    {S E : Type 0} → String → (S → S × Option E) → Run S (MongoError E) (Unit {0})
unfolding changed
writes label f s = changed label (f s)

-- `ErrNoDocuments` is no error: the result is a nil map.
decoded : {E V : Type 0} → Found E V → Outcome E (GoMap V)
decoded (found d) = returns (some d)
decoded no_documents = returns none
decoded (find_failed e) = fails e

without_id : {E V : Type 0} → Outcome E (GoMap V) → Outcome E (GoMap V)
without_id (returns m) = returns (Option.map (delete_key "_id") m)
without_id (fails e) = fails e
without_id panics = panics

is_existing : {E V : Type 0} → Outcome E (GoMap V) → Outcome E Bool
is_existing (returns none) = returns false
is_existing (returns (some d)) = returns true
is_existing (fails e) = fails e
is_existing panics = panics

-- The loop over a cursor.
unfoldable pub read_cursor :
    {E V : Type 0} → List (Outcome E (Document V)) → Option E → Outcome E (List (Document V))
read_cursor [] none = returns []
read_cursor [] (some e) = fails e
read_cursor (returns d ∷ rest) err = elim (read_cursor rest err) [
  | returns ds ↦ returns (delete_key "_id" d ∷ ds)
  | fails e ↦ fails e
  | panics ↦ panics
]
read_cursor (fails e ∷ rest) err = fails e
read_cursor (panics ∷ rest) err = panics

unfoldable pub read_all : {E V : Type 0} → Outcome E (Cursor E V) → Outcome E (List (Document V))
unfolding read_cursor
read_all (returns c) = read_cursor c.elements c.final_error
read_all (fails e) = fails e
read_all panics = panics

module _ (D : Driver) where
  connected : Package D.Client → String → D.Err ⊎ D.Client → Package D.Client × Option D.Err
  connected p name (inr c) = (record { client = some c; db_name = name }, none)
  connected p name (inl e) = (p, some e)

  unfoldable pub set_mongo_db : Package D.Client → String → String → Package D.Client × Option D.Err
  unfolding connected
  set_mongo_db p setdb_name url = elim p.client [
    | some c ↦ (p, none)
    | none ↦ connected p setdb_name (D.connect url)
  ]

  unfoldable pub find_one_and_decode :
      Collection D.Client → D.Filter → List ArgOpt → D.Db → Outcome D.Err (GoMap D.Value)
  unfolding decoded get_collation
  find_one_and_decode collection filter arg_opt s =
      decoded (D.find_one s collection filter (get_collation arg_opt))

  unfoldable pub get_orig_data :
      Collection D.Client → D.Filter → List ArgOpt → D.Db → Outcome D.Err (GoMap D.Value)
  unfolding find_one_and_decode without_id
  get_orig_data collection filter arg_opt s =
      without_id (find_one_and_decode collection filter arg_opt s)

  unfoldable pub check_data_existed :
      Collection D.Client → D.Filter → List ArgOpt → D.Db → Outcome D.Err Bool
  unfolding find_one_and_decode is_existing
  check_data_existed collection filter arg_opt s =
      is_existing (find_one_and_decode collection filter arg_opt s)
