-- ===== src/Mongo/Driver.antt =====
-- What lib/util/mongoapi calls: the MongoDB driver, encoding/json and the json-patch package. Their
-- types and functions are the fields of a record. A call that changes the database gives it back.
use Prim.Native.String.{String}
use free5gc_workspace.Prelude.{◌⊎◌, ℕ, List, Option}
use free5gc_workspace.Prelude.Int.{ℤ}
use free5gc_workspace.Prelude.Outcome.{Outcome}

-- `options.Collation`, as far as the package fills it in.
pub record Collation : Type 0 where
  pub locale : String
  pub strength : ℤ

pub record Collection (Client : Type 0) : Type 0 where
  pub client : Option Client
  pub db_name : String
  pub coll_name : String

abbrev pub Document : Type 0 → Type 0
Document V = List (String × V)

-- A map, which may be nil.
abbrev pub GoMap : Type 0 → Type 0
GoMap V = Option (Document V)

-- `bson.M{"$set": m}` and `bson.M{"$pull": m}`
pub data Update (V : Type 0) : Type 0 where
  set pull : GoMap V → Update V

-- `FindOne(…).Decode(&result)`: `no_documents` is `mongo.ErrNoDocuments`.
pub data Found (E V : Type 0) : Type 0 where
  found : Document V → Found E V
  no_documents : Found E V
  find_failed : E → Found E V

-- A cursor: what `Decode` gives after each `Next`, and what `Err` gives at the end.
pub record Cursor (E V : Type 0) : Type 0 where
  pub elements : List (Outcome E (Document V))
  pub final_error : Option E

pub record Driver : Type 1 where
  pub Client : Type 0
  pub Db : Type 0
  pub Err : Type 0
  pub Value : Type 0
  pub Filter : Type 0
  pub Json : Type 0
  pub Patch : Type 0
  pub connect : String → Err ⊎ Client
  pub find_one : Db → Collection Client → Filter → Option Collation → Found Err Value
  pub find : Db → Collection Client → Filter → Option Collation → Outcome Err (Cursor Err Value)
  pub update_one :
      Db → Collection Client → Filter → Update Value → Option Collation → Db × Option Err
  pub insert_one : Db → Collection Client → GoMap Value → Db × Option Err
  pub insert_many : Db → Collection Client → List Value → Db × Option Err
  pub delete_one : Db → Collection Client → Filter → Option Collation → Db × Option Err
  pub delete_many : Db → Collection Client → Filter → Option Collation → Db × Option Err
  pub count_documents : Db → Collection Client → Filter → Outcome Err ℕ
  pub drop_collection : Db → Collection Client → Db × Option Err
  pub marshal_map : GoMap Value → Outcome Err Json
  pub marshal_value : Option Value → Outcome Err Json
  pub merge_patch : Json → Json → Outcome Err Json
  pub decode_patch : Json → Outcome Err Patch
  pub apply_patch : Patch → Json → Outcome Err Json
  pub unmarshal : Json → Outcome Err (GoMap Value)
