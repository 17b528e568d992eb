-- ===== src/Mongo/PutMany.antt =====
-- What `RestfulAPIPutMany` makes of a collection.
use Prim.Native.String.{String}
use free5gc_workspace.Prelude.{
  ◌<◌, length, ◌≡◌, ◌≢◌, ◌⊎◌, refl, sym, ◌∙◌, Bool, true, false, List, [], ◌∷◌, none, inl, inr,
}
use free5gc_workspace.Prelude.Outcome.{Outcome, returns, fails, panics}
use free5gc_workspace.Mongo.Driver.{Collection, Document, GoMap, set, Driver}
use free5gc_workspace.Mongo.Api.{
  ArgOpt, get_collation, Package, MongoError, labelled, get_collection,
}
use free5gc_workspace.Mongo.Server.{Server, any, SetsOne, Inserted}
use free5gc_workspace.Mongo.Upsert.{any_there, Upserted, write_cases, existed_cases, CallFailed}
use free5gc_workspace.Mongo.Restful.{put_next, put_many}

module _ (D : Driver) (S : Server D) (p : Package D.Client) where
  -- A round of the loop: the search has the collation of the arguments, and the update none.
  put_next_cases :
      (name : String) (f : D.Filter) (m : GoMap D.Value) (opts : List ArgOpt) (s s' : D.Db)
      (r : Outcome (MongoError D.Err) (Unit {0}))
      → put_next D p name f m opts s ≡ (s', r)
      → let c = get_collection p name in
        let there = any (S.matches f (get_collation opts)) (S.content s c) in
        ((r ≡ returns tt)
          × (there ≡ true)
          × SetsOne (S.matches f none) m (S.content s c) (S.content s' c))
        ⊎ (((r ≡ returns tt) × (there ≡ false) × Inserted m (S.content s c) (S.content s' c))
            ⊎ ((label : String) × (e : D.Err) × (r ≡ fails (labelled label e))
                × CallFailed D S p c f m (get_collation opts) none e s s'))
  unfolding put_next
  put_next_cases name f m opts s s' r h =
      let c : Collection D.Client = get_collection p name in
      elim (existed_cases D S p c f opts s) [
        | inl (answer, there) ↦ elim (write_cases (D.update_one s c f (set m) none)) [
          | inl (s1, e) ↦
              let h' = rw (answer, e) at h in
              let same : s1 ≡ s' = cc in
              inl (cc, there, rw same at (S.answers_set s s1 c f m none e))
          | inr (s1, x, e) ↦
              let h' = rw (answer, e) at h in
              inr (inr ("RestfulAPIPutMany UpdateOne err", x, cc, inr (inl cc)))
        ]
        | inr (inl (answer, there)) ↦ elim (write_cases (D.insert_one s c m)) [
          | inl (s1, e) ↦
              let h' = rw (answer, e) at h in
              let same : s1 ≡ s' = cc in
              inr (inl (cc, there, rw same at (S.answers_insert s s1 c m e)))
          | inr (s1, x, e) ↦
              let h' = rw (answer, e) at h in
              inr (inr ("RestfulAPIPutMany InsertOne err", x, cc, inr (inr cc)))
        ]
        | inr (inr (x, answer, e)) ↦
            let h' = rw answer at h in inr (inr ("RestfulAPIPutMany err", x, cc, inl (e, cc)))
      ]

  put_many-next :
      (name : String) (f : D.Filter) (fs : List D.Filter) (m : GoMap D.Value)
      (ms : List (GoMap D.Value)) (opts : List ArgOpt) (s s' : D.Db)
      (r : Outcome (MongoError D.Err) (Unit {0}))
      → put_many D p name (f ∷ fs) (m ∷ ms) opts s ≡ (s', r)
      → ((s1 : D.Db) × (put_next D p name f m opts s ≡ (s1, returns tt))
          × (put_many D p name fs ms opts s1 ≡ (s', r)))
        ⊎ ((put_next D p name f m opts s ≡ (s', r)) × (r ≢ returns tt))
  unfolding put_many
  put_many-next name f fs m ms opts s s' r h = of_first (put_next D p name f m opts s) refl
    where
      of_first :
          (x : D.Db × Outcome (MongoError D.Err) (Unit {0}))
          → put_next D p name f m opts s ≡ x
          → ((s1 : D.Db) × (put_next D p name f m opts s ≡ (s1, returns tt))
              × (put_many D p name fs ms opts s1 ≡ (s', r)))
            ⊎ ((put_next D p name f m opts s ≡ (s', r)) × (r ≢ returns tt))
      of_first (s1, returns tt) e = inl (s1, e, rw e at h)
      of_first (s1, fails x) e = let h' = rw e at h in inr (e ∙ h', λ bad. cc)
      of_first (s1, panics) e = let h' = rw e at h in inr (e ∙ h', λ bad. cc)

  put_many_ends :
      (name : String) (fs : List D.Filter) (opts : List ArgOpt) (s s' : D.Db)
      (r : Outcome (MongoError D.Err) (Unit {0}))
      → put_many D p name fs [] opts s ≡ (s', r)
      → (r ≡ returns tt)
        × (S.content s' (get_collection p name) ≡ S.content s (get_collection p name))
  unfolding put_many
  put_many_ends name fs opts s s' r h = let same : s ≡ s' = cc in (cc, rw same refl)

  -- One after the other, with a filter for each of the data.
  abbrev pub InTurn :
      List D.Filter
      → List (GoMap D.Value)
      → List (Document D.Value)
      → List (Document D.Value)
      → Type 0
  InTurn fs [] l l' = l' ≡ l
  InTurn [] (m ∷ ms) l l' = ⊥
  InTurn (f ∷ fs) (m ∷ ms) l l' =
      (existed : Bool) × (l1 : List (Document D.Value)) × Upserted (S.matches f none) m existed l l1
      × InTurn fs ms l1 l'

  -- How `RestfulAPIPutMany` ends: with all the data written, with the error of a call, or with a panic.
  abbrev pub PutManyEnds :
      Collection D.Client
      → List D.Filter
      → List (GoMap D.Value)
      → D.Db
      → D.Db
      → Outcome (MongoError D.Err) (Unit {0})
      → Type 0
  PutManyEnds c fs ms s s' r =
      ((r ≡ returns tt) × InTurn fs ms (S.content s c) (S.content s' c))
      ⊎ (((label : String) × (e : D.Err) × (f : D.Filter) × (m : GoMap D.Value) × (t : D.Db) × (r
              ≡ fails (labelled label e))
            × CallFailed D S p c f m none none e t s')
          ⊎ ((r ≡ panics) × (length fs < length ms)))

  -- Where a document matches the only filter under the collation and none does without it, and
  -- `RestfulAPIPutMany` reports no error, the data are lost: the collection is as it was, and they
  -- were neither set nor added. The driver's calls that report no error do what MongoDB documents of
  -- them.
  pub put_many_loses :
      (name : String) (f : D.Filter) (m : GoMap D.Value) (opts : List ArgOpt) (s s' : D.Db)
      → let c = get_collection p name in
        any (S.matches f (get_collation opts)) (S.content s c) ≡ true
        → any (S.matches f none) (S.content s c) ≡ false
        → put_many D p name (f ∷ []) (m ∷ []) opts s ≡ (s', returns tt)
        → S.content s' c ≡ S.content s c
  put_many_loses name f m opts s s' there not_plain h =
      elim (put_many-next name f [] m [] opts s s' (returns tt) h) [
        | inr (_, failed) ↦ absurd (failed refl)
        | inl (s1, e, h') ↦ elim (put_next_cases name f m opts s s1 (returns tt) e) [
          | inl (_, _, inl (_, kept)) ↦ (put_many_ends name [] opts s1 s' (returns tt) h').1 ∙ kept
          | inl (_, _, inr (fields, d, d', before, after, _, at, holds, _, _)) ↦
              let plain_there = any_there (S.matches f none) before after d holds in
              absurd (clash plain_there (rw at at not_plain))
          | inr (inl (_, absent, _)) ↦ absurd (clash there absent)
          | inr (inr (_, _, bad, _)) ↦ cc
        ]
      ]
    where
      clash : {b : Bool} → b ≡ true → b ≡ false → ⊥
      clash h k = let bad : true ≡ false = sym h ∙ k in cc
