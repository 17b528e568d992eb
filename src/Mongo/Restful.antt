-- ===== src/Mongo/Restful.antt =====
-- The functions RestfulAPI… of lib/util/mongoapi/mongoapi.go.
use Prim.Native.String.{String}
use free5gc_workspace.Prelude.{
  ℕ, Bool, true, false, List, [], ◌∷◌, Option, none, some, if◌then◌else◌,
}
use free5gc_workspace.Prelude.Dict.{lookup}
use free5gc_workspace.Prelude.Outcome.{panics}
use free5gc_workspace.Prelude.Run.{Run, ◌>>=◌, ◌>>◌, gives}
use free5gc_workspace.Mongo.Driver.{Document, GoMap, set, pull, Driver}
use free5gc_workspace.Mongo.Api.{
  ArgOpt, get_collation, MongoError, Package, get_collection, attempt, reads, writes, read_all,
  get_orig_data, check_data_existed,
}

module _ (D : Driver) (p : Package D.Client) where
  abbrev Api : Type 0 → Type 0
  Api A = Run D.Db (MongoError D.Err) A

  unfoldable pub get_one : String → D.Filter → List ArgOpt → Api (GoMap D.Value)
  unfolding reads get_orig_data get_collection
  get_one coll_name filter arg_opt =
      reads "RestfulAPIGetOne err" (get_orig_data D (get_collection p coll_name) filter arg_opt)

  unfoldable pub get_many : String → D.Filter → List ArgOpt → Api (List (Document D.Value))
  unfolding reads get_collation get_collection read_all
  get_many coll_name filter arg_opt =
      reads "RestfulAPIGetMany err"
        (λ s. read_all (D.find s (get_collection p coll_name) filter (get_collation arg_opt)))

  unfoldable pub put_one : String → D.Filter → GoMap D.Value → List ArgOpt → Api Bool
  unfolding ◌>>=◌ ◌>>◌ gives reads writes get_collection get_collation check_data_existed
  put_one coll_name filter put_data arg_opt = do
    let collection = get_collection p coll_name
    existed ← reads "RestfulAPIPutOne err" (check_data_existed D collection filter arg_opt)
    if existed
        then (do
          writes "RestfulAPIPutOne UpdateOne err"
              (λ s. D.update_one s collection filter (set put_data) (get_collation arg_opt))
          gives true)
        else (do
          writes "RestfulAPIPutOne InsertOne err" (λ s. D.insert_one s collection put_data)
          gives false)

  unfoldable pub pull_one : String → D.Filter → GoMap D.Value → List ArgOpt → Api (Unit {0})
  unfolding writes get_collection get_collation
  pull_one coll_name filter put_data arg_opt = writes "RestfulAPIPullOne err" (λ s.
      D.update_one s (get_collection p coll_name) filter (pull put_data) (get_collation arg_opt))

  unfoldable pub put_one_not_update : String → D.Filter → GoMap D.Value → List ArgOpt → Api Bool
  unfolding ◌>>=◌ ◌>>◌ gives reads writes get_collection check_data_existed
  put_one_not_update coll_name filter put_data arg_opt = do
    let collection = get_collection p coll_name
    existed ← reads "RestfulAPIPutOneNotUpdate err" (check_data_existed D collection filter arg_opt)
    if existed then gives true else (do
      writes "RestfulAPIPutOneNotUpdate InsertOne err" (λ s. D.insert_one s collection put_data)
      gives false)

  -- The loop's body: the update has no collation.
  unfoldable pub put_next : String → D.Filter → GoMap D.Value → List ArgOpt → Api (Unit {0})
  unfolding ◌>>=◌ reads writes get_collection check_data_existed
  put_next coll_name filter put_data arg_opt = do
    let collection = get_collection p coll_name
    existed ← reads "RestfulAPIPutMany err" (check_data_existed D collection filter arg_opt)
    if existed
        then writes "RestfulAPIPutMany UpdateOne err"
            (λ s. D.update_one s collection filter (set put_data) none)
        else writes "RestfulAPIPutMany InsertOne err" (λ s. D.insert_one s collection put_data)

  -- The loop over the data; a filter that is missing is an index out of range.
  unfoldable pub put_many :
      String → List D.Filter → List (GoMap D.Value) → List ArgOpt → Api (Unit {0})
  unfolding ◌>>◌ gives put_next
  put_many coll_name filters [] arg_opt = gives tt
  put_many coll_name [] (put_data ∷ rest) arg_opt = λ s. (s, panics)
  put_many coll_name (filter ∷ filters) (put_data ∷ rest) arg_opt = do
    put_next coll_name filter put_data arg_opt
    put_many coll_name filters rest arg_opt

  unfoldable pub delete_one : String → D.Filter → List ArgOpt → Api (Unit {0})
  unfolding writes get_collection get_collation
  delete_one coll_name filter arg_opt =
      writes "RestfulAPIDeleteOne err"
        (λ s. D.delete_one s (get_collection p coll_name) filter (get_collation arg_opt))

  unfoldable pub delete_many : String → D.Filter → List ArgOpt → Api (Unit {0})
  unfolding writes get_collection get_collation
  delete_many coll_name filter arg_opt =
      writes "RestfulAPIDeleteMany err"
        (λ s. D.delete_many s (get_collection p coll_name) filter (get_collation arg_opt))

  unfoldable pub merge_patch : String → D.Filter → GoMap D.Value → List ArgOpt → Api (Unit {0})
  unfolding ◌>>=◌ reads attempt writes get_collection get_collation get_orig_data
  merge_patch coll_name filter patch_data arg_opt = do
    let collection = get_collection p coll_name
    original_data ←
        reads "RestfulAPIMergePatch getOrigData err" (get_orig_data D collection filter arg_opt)
    original ← attempt "RestfulAPIMergePatch Marshal err" (D.marshal_map original_data)
    patch_data_byte ← attempt "RestfulAPIMergePatch Marshal err" (D.marshal_map patch_data)
    modified ←
        attempt "RestfulAPIMergePatch MergePatch err" (D.merge_patch original patch_data_byte)
    modified_data ← attempt "RestfulAPIMergePatch Unmarshal err" (D.unmarshal modified)
    writes "RestfulAPIMergePatch UpdateOne err"
        (λ s. D.update_one s collection filter (set modified_data) (get_collation arg_opt))

  unfoldable pub json_patch : String → D.Filter → D.Json → List ArgOpt → Api (Unit {0})
  unfolding ◌>>=◌ reads attempt writes get_collection get_collation get_orig_data
  json_patch coll_name filter patch_json arg_opt = do
    let collection = get_collection p coll_name
    original_data ←
        reads "RestfulAPIJSONPatch getOrigData err" (get_orig_data D collection filter arg_opt)
    original ← attempt "RestfulAPIJSONPatch Marshal err" (D.marshal_map original_data)
    patch ← attempt "RestfulAPIJSONPatch DecodePatch err" (D.decode_patch patch_json)
    modified ← attempt "RestfulAPIJSONPatch Apply err" (D.apply_patch patch original)
    modified_data ← attempt "RestfulAPIJSONPatch Unmarshal err" (D.unmarshal modified)
    writes "RestfulAPIJSONPatch UpdateOne err"
        (λ s. D.update_one s collection filter (set modified_data) (get_collation arg_opt))

  -- `originalDataCover[dataName]`; a nil map has no keys.
  unfoldable pub covered : String → GoMap D.Value → Option D.Value
  unfolding lookup
  covered data_name none = none
  covered data_name (some m) = lookup data_name m

  unfoldable pub json_patch_extend :
      String → D.Filter → D.Json → String → List ArgOpt → Api (Unit {0})
  unfolding ◌>>=◌ reads attempt writes get_collection get_collation get_orig_data covered
  json_patch_extend coll_name filter patch_json data_name arg_opt = do
    let collection = get_collection p coll_name
    original_data_cover ←
        reads "RestfulAPIJSONPatchExtend getOrigData err"
          (get_orig_data D collection filter arg_opt)
    original ←
        attempt "RestfulAPIJSONPatchExtend Marshal err"
          (D.marshal_value (covered data_name original_data_cover))
    patch ← attempt "RestfulAPIJSONPatchExtend DecodePatch err" (D.decode_patch patch_json)
    modified ← attempt "RestfulAPIJSONPatchExtend Apply err" (D.apply_patch patch original)
    modified_data ← attempt "RestfulAPIJSONPatchExtend Unmarshal err" (D.unmarshal modified)
    writes "RestfulAPIJSONPatchExtend UpdateOne err"
        (λ s. D.update_one s collection filter (set modified_data) (get_collation arg_opt))

  unfoldable pub post : String → D.Filter → GoMap D.Value → List ArgOpt → Api Bool
  unfolding put_one
  post coll_name filter post_data arg_opt = put_one coll_name filter post_data arg_opt

  unfoldable pub post_many : String → D.Filter → List D.Value → Api (Unit {0})
  unfolding writes get_collection
  post_many coll_name filter post_data_array =
      writes "RestfulAPIPostMany err"
        (λ s. D.insert_many s (get_collection p coll_name) post_data_array)

  unfoldable pub count : String → D.Filter → Api ℕ
  unfolding reads get_collection
  count coll_name filter =
      reads "RestfulAPICount err" (λ s. D.count_documents s (get_collection p coll_name) filter)

  -- `Drop` returns the driver's error as it is.
  unfoldable pub drop_all : String → D.Db → D.Db × Option D.Err
  unfolding get_collection
  drop_all coll_name s = D.drop_collection s (get_collection p coll_name)
