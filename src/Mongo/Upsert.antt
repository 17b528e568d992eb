-- ===== src/Mongo/Upsert.antt =====
-- What the functions that write make of a collection.
use Prim.Native.String.{String}
use free5gc_workspace.Prelude.{
  ◌≡◌, ◌⊎◌, refl, sym, ◌∙◌, Bool, true, false, List, [], ◌∷◌, ◌++◌, Option, none, some, inl, inr,
  Bool-cases,
}
use free5gc_workspace.Prelude.Outcome.{Outcome, returns, fails}
use free5gc_workspace.Mongo.Driver.{
  Collation, Collection, Document, GoMap, Found, found, no_documents, find_failed, set, Driver,
}
use free5gc_workspace.Mongo.Api.{ArgOpt, get_collation, Package, check_data_existed}
use free5gc_workspace.Mongo.Server.{Server, any, Replaced, SetsOne, Inserted}

module _ {V : Type 0} (p : Document V → Bool) where
  pub any_there :
      (before after : List (Document V)) (d : Document V)
      → p d ≡ true
      → any p (before ++ d ∷ after) ≡ true
  any_there [] after d h = rw h refl
  any_there (x ∷ before) after d h = elim (Bool-cases (p x)) [
    | inl e ↦ rw e refl
    | inr e ↦ rw e (any_there before after d h)
  ]

  -- The data are set in a document that matches, where there is one, and are a new document else.
  abbrev pub Upserted : GoMap V → Bool → List (Document V) → List (Document V) → Type 0
  Upserted m true l l' = (any p l ≡ true) × Replaced p m l l'
  Upserted m false l l' = (any p l ≡ false) × Inserted m l l'

  pub sets_there :
      (m : GoMap V) (l l' : List (Document V))
      → any p l ≡ true
      → SetsOne p m l l'
      → Replaced p m l l'
  sets_there m l l' there (inl (none_there, _)) =
      let clash : true ≡ false = sym there ∙ none_there in cc
  sets_there m l l' there (inr r) = r

abbrev pub Written : {S E : Type 0} → S × Option E → Type 0
Written {S} {E} r = ((s' : S) × (r ≡ (s', none))) ⊎ ((s' : S) × (e : E) × (r ≡ (s', some e)))

pub write_cases : {S E : Type 0} (r : S × Option E) → Written r
write_cases (s', none) = inl (s', refl)
write_cases (s', some e) = inr (s', e, refl)

module _ (D : Driver) (S : Server D) (p : Package D.Client) where
  -- What checkDataExisted answers: whether a document matches, or the error of the search.
  abbrev pub SearchEnds : Collection D.Client → D.Filter → List ArgOpt → D.Db → Type 0
  SearchEnds c f opts s =
      let answer = check_data_existed D c f opts s in
      let there = any (S.matches f (get_collation opts)) (S.content s c) in
      ((answer ≡ returns true) × (there ≡ true))
      ⊎ (((answer ≡ returns false) × (there ≡ false))
          ⊎ ((e : D.Err) × (answer ≡ fails e)
              × (D.find_one s c f (get_collation opts) ≡ find_failed e)))

  pub existed_cases :
      (c : Collection D.Client) (f : D.Filter) (opts : List ArgOpt) (s : D.Db)
      → SearchEnds c f opts s
  unfolding check_data_existed
  existed_cases c f opts s = of_search (D.find_one s c f (get_collation opts)) refl
    where
      of_search :
          (r : Found D.Err D.Value)
          → D.find_one s c f (get_collation opts) ≡ r
          → SearchEnds c f opts s
      of_search (found d) e =
          let (before, after, there, holds) =
            rw e at (S.answers_find_one s c f (get_collation opts)) in
          inl (
            rw e refl,
            rw there (any_there (S.matches f (get_collation opts)) before after d holds),
          )
      of_search no_documents e =
          inr (inl (rw e refl, rw e at (S.answers_find_one s c f (get_collation opts))))
      of_search (find_failed x) e = inr (inr (x, rw e refl, e))

  -- The error is that of a call of the driver; a search leaves the database as it is.
  abbrev pub CallFailed :
      Collection D.Client
      → D.Filter
      → GoMap D.Value
      → Option Collation
      → Option Collation
      → D.Err
      → D.Db
      → D.Db
      → Type 0
  CallFailed c f m k k' e s s' =
      ((D.find_one s c f k ≡ find_failed e) × (s' ≡ s))
      ⊎ ((D.update_one s c f (set m) k' ≡ (s', some e)) ⊎ (D.insert_one s c m ≡ (s', some e)))
