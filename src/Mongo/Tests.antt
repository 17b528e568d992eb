-- ===== src/Mongo/Tests.antt =====
-- The API on a server in memory.
use Prim.Native.String.{String}
use free5gc_workspace.Prelude.{ℕ, ◌≡◌, refl, List, [], ◌∷◌, some, map}
use free5gc_workspace.Prelude.Int.{pos}
use free5gc_workspace.Prelude.Dict.{lookup}
use free5gc_workspace.Prelude.Outcome.{Outcome, returns}
use free5gc_workspace.Mongo.Driver.{Document}
use free5gc_workspace.Mongo.Server.{Server, is_path}
use free5gc_workspace.Mongo.Api.{ArgOpt, int_arg, Package, get_collation, get_collection}
use free5gc_workspace.Mongo.Memory.{memory, fits, finds, updates_lem, inserts_lem}
use free5gc_workspace.Mongo.Restful.{put_many, json_patch_extend}
use free5gc_workspace.Mongo.PutMany.{put_many_loses}
use free5gc_workspace.Mongo.Patch.{json_patch_extend_misses}

abbrev memory_server : Server memory
memory_server = record {
  content = λ s c. s;
  matches = fits;
  answers_find_one = λ s c f k. finds (fits f k) s;
  answers_set = λ s s' c f m k h. updates_lem (fits f k) m s s' h;
  answers_insert = λ s s' c m h. inserts_lem m s s' h;
}

abbrev connected : Package (Unit {0})
connected = record { client = some tt; db_name = "free5gc" }

abbrev seven : Document ℕ
seven = ("ueId", 7) ∷ (("qos", 9) ∷ [])

abbrev eight : Document ℕ
eight = ("ueId", 8) ∷ []

abbrev ues : List (Document ℕ)
ues = seven ∷ (eight ∷ [])

abbrev ignore_case : List ArgOpt
ignore_case = int_arg (pos 2) ∷ []

abbrev qos : Document ℕ
qos = ("qos", 5) ∷ []

abbrev eight_set : List (Document ℕ)
eight_set = seven ∷ ((("qos", 5) ∷ eight) ∷ [])

abbrev nine_added : List (Document ℕ)
nine_added = seven ∷ (eight ∷ ((("_id", 2) ∷ (("ueId", 9) ∷ [])) ∷ []))

nine_lost :
    put_many memory connected "ues" (("ueId", 9) ∷ []) (some qos ∷ []) ignore_case ues
    ≡ (ues, returns tt)
unfolding put_many lookup get_collation
nine_lost = refl

put_many_loses_example :
    memory_server.content ues (record { client = some tt; db_name = "free5gc"; coll_name = "ues" })
    ≡ ues
unfolding lookup get_collation get_collection
put_many_loses_example =
    put_many_loses memory memory_server connected "ues" ("ueId", 9) (some qos) ignore_case ues ues
      refl refl nine_lost

abbrev arp : Document ℕ
arp = ("arp", 3) ∷ []

abbrev arp_beside : List (Document ℕ)
arp_beside = (("arp", 3) ∷ seven) ∷ (eight ∷ [])

arp_patched :
    json_patch_extend memory connected "ues" ("ueId", 7) (some arp) "qos" [] ues
    ≡ (arp_beside, returns tt)
unfolding json_patch_extend lookup get_collation
arp_patched = refl

json_patch_extend_misses_example : map (lookup "qos") arp_beside ≡ map (lookup "qos") ues
unfolding lookup get_collation get_collection is_path
json_patch_extend_misses_example =
    json_patch_extend_misses memory memory_server connected "ues" ("ueId", 7) (some arp) "qos" []
      ues arp_beside seven arp refl refl refl refl refl refl (refl, tt) refl arp_patched
