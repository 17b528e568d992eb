-- ===== src/Mongo/Patch.antt =====
-- What `RestfulAPIJSONPatchExtend` makes of a collection.
use Prim.Native.String.{String}
use mathlib.Core.List.{map-append}
use free5gc_workspace.Prelude.{
  ◌≡◌, refl, ap, sym, ◌∙◌, Bool, false, List, ◌∷◌, ◌++◌, Option, none, some, map, inl, inr,
}
use free5gc_workspace.Prelude.Dict.{lookup, delete_key}
use free5gc_workspace.Prelude.Outcome.{returns}
use free5gc_workspace.Mongo.Driver.{Collation, Collection, Document, GoMap, found, set, Driver}
use free5gc_workspace.Mongo.Api.{ArgOpt, get_collation, Package, get_collection, get_orig_data}
use free5gc_workspace.Mongo.Server.{Server, SetsOne, SetIn, NoPaths, is_path}
use free5gc_workspace.Mongo.Upsert.{write_cases}
use free5gc_workspace.Mongo.Restful.{json_patch_extend, covered}

module _ {V : Type 0} where
  -- `$set` of other entries keeps what a document has under a key.
  set_beside :
      (m d d' : Document V) (key : String)
      → SetIn m d d'
      → NoPaths m
      → is_path key ≡ false
      → lookup key m ≡ none
      → lookup key d' ≡ lookup key d
  set_beside m d d' key sets plain h absent = sets plain key h ∙ rw absent refl

  sets_beside :
      (p : Document V → Bool) (m : Document V) (key : String) (l l' : List (Document V))
      → NoPaths m
      → is_path key ≡ false
      → lookup key m ≡ none
      → SetsOne p (some m) l l'
      → map (lookup key) l' ≡ map (lookup key) l
  sets_beside p m key l l' plain h absent (inl (_, same)) = ap (map (lookup key)) same
  sets_beside p m key l l' plain h absent
        (inr (fields, d, d', before, after, is, at, _, at', sets)) =
      let sets' : SetIn m d d' = rw (← some_is m fields is) at sets in
      let kept = set_beside m d d' key sets' plain h absent in
      ap (map (lookup key)) at'
      ∙ map-append (lookup key) before (d' ∷ after)
      ∙ ap (λ v. map (lookup key) before ++ v ∷ map (lookup key) after) kept
      ∙ sym (map-append (lookup key) before (d ∷ after))
      ∙ ap (map (lookup key)) (sym at)
    where
      some_is : (a b : Document V) → ◌≡◌ {A = GoMap V} (some a) (some b) → a ≡ b
      some_is a b e = cc

module _ (D : Driver) (S : Server D) (p : Package D.Client) where
  -- Where the search finds a document, and what it has under the name is patched to a map without an
  -- entry of that same name, and neither the name nor a key of the map has a dot, every document keeps
  -- what it has under the name when `RestfulAPIJSONPatchExtend` reports no error. The driver's calls
  -- that report no error do what MongoDB documents of them.
  pub json_patch_extend_misses :
      (name : String) (f : D.Filter) (patch_json : D.Json) (data_name : String) (opts : List ArgOpt)
      (s s' : D.Db) (cover m : Document D.Value) {original : D.Json} {patch : D.Patch}
      {modified : D.Json}
      → D.find_one s (get_collection p name) f (get_collation opts) ≡ found cover
      → D.marshal_value (lookup data_name (delete_key "_id" cover)) ≡ returns original
      → D.decode_patch patch_json ≡ returns patch
      → D.apply_patch patch original ≡ returns modified
      → D.unmarshal modified ≡ returns (some m)
      → lookup data_name m ≡ none
      → NoPaths m
      → is_path data_name ≡ false
      → json_patch_extend D p name f patch_json data_name opts s ≡ (s', returns tt)
      → let c = get_collection p name in
        map (lookup data_name) (S.content s' c) ≡ map (lookup data_name) (S.content s c)
  unfolding json_patch_extend get_orig_data covered
  json_patch_extend_misses name f patch_json data_name opts s s' cover m h1 h2 h3 h4 h5 h6 plain h7
        h =
      let c : Collection D.Client = get_collection p name in
      let k : Option Collation = get_collation opts in
      elim (write_cases (D.update_one s c f (set (some m)) k)) [
        | inl (s1, e) ↦
            let h' = rw (h1, h2, h3, h4, h5, e) at h in
            let same : s1 ≡ s' = cc in
            sets_beside (S.matches f k) m data_name (S.content s c) (S.content s' c) plain h7 h6
              (rw same at (S.answers_set s s1 c f (some m) k e))
        | inr (s1, x, e) ↦ let h' = rw (h1, h2, h3, h4, h5, e) at h in cc
      ]
