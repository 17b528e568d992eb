-- ===== src/Mongo/Memory.antt =====
-- A server in memory: one collection of documents of numbers. A filter is a key and a value; under a
-- collation two numbers of the same parity are equal.
use Prim.Native.String.{String}
use text.Mathlib.TextEquality.{eq_iff}
use mathlib.Core.List.{append-nil}
use free5gc_workspace.Prelude.{
  ℕ, ◌%◌, ◌≡◌, ◌≢◌, refl, ap, sym, Bool, true, false, ◌&&◌, List, [], ◌∷◌, ◌++◌, length, Option,
  none, some, ◌==◌, inl, inr, Bool-cases, if◌then◌else◌, arith,
}
use free5gc_workspace.Prelude.Outcome.{returns}
use free5gc_workspace.Prelude.Dict.{lookup}
use free5gc_workspace.Mongo.Driver.{
  Collation, Document, GoMap, Update, set, pull, Found, found, no_documents, Driver,
}
use free5gc_workspace.Mongo.Server.{Finds, SetsOne, Inserted, any, entries, or_else}

abbrev is_some : Option ℕ → Bool
is_some none = false
is_some (some n) = true

abbrev or_zero : Option ℕ → ℕ
or_zero none = 0
or_zero (some n) = n

abbrev compared : Option Collation → ℕ → ℕ → Bool
compared none a b = a == b
compared (some k) a b = a % 2 == b % 2

abbrev holds : Option Collation → ℕ → Option ℕ → Bool
holds k v none = false
holds k v (some w) = compared k v w

abbrev pub fits : String × ℕ → Option Collation → Document ℕ → Bool
fits (key, v) k d = holds k v (lookup key d)

abbrev changed : Update ℕ → Document ℕ → Document ℕ
changed (set m) d = entries m ++ d
changed (pull m) d = d

pub lookup-append :
    (m d : Document ℕ) (key : String) → lookup key (m ++ d) ≡ or_else (lookup key m) (lookup key d)
unfolding lookup
lookup-append [] d key = refl
lookup-append ((j, v) ∷ m) d key = ground (arith, lookup-append m d key)

abbrev first_match : {A : Type 0} → (A → Bool) → List A → Option A
first_match p [] = none
first_match p (x ∷ l) = if p x then some x else first_match p l

abbrev update_first : {A : Type 0} → (A → Bool) → (A → A) → List A → List A
update_first p g [] = []
update_first p g (x ∷ l) = if p x then g x ∷ l else x ∷ update_first p g l

abbrev found_or_not : {E V : Type 0} → Option (Document V) → Found E V
found_or_not none = no_documents
found_or_not (some d) = found d

-- `$set` of a nil map is refused.
abbrev updates :
    (Document ℕ → Bool) → Update ℕ → List (Document ℕ) → List (Document ℕ) × Option (Unit {0})
updates p (set none) s = (s, some tt)
updates p (set (some m)) s = (update_first p (changed (set (some m))) s, none)
updates p (pull m) s = (s, none)

-- A document has the length of the list as its `_id`, unless it has one of its own, which may not be
-- that of another.
abbrev with_id : ℕ → Document ℕ → Document ℕ
with_id n m = if is_some (lookup "_id" m) then m else ("_id", n) ∷ m

abbrev same_id : Document ℕ → Document ℕ → Bool
same_id m d = is_some (lookup "_id" m) && holds none (or_zero (lookup "_id" m)) (lookup "_id" d)

abbrev inserts : GoMap ℕ → List (Document ℕ) → List (Document ℕ) × Option (Unit {0})
inserts m s =
    if any (same_id (entries m)) s
    then (s, some tt)
    else (s ++ with_id (length s) (entries m) ∷ [], none)

abbrev pub memory : Driver
memory = record {
  Client = Unit {0};
  Db = List (Document ℕ);
  Err = Unit {0};
  Value = ℕ;
  Filter = String × ℕ;
  Json = GoMap ℕ;
  Patch = GoMap ℕ;
  connect = λ url. inr tt;
  find_one = λ s c f k. found_or_not (first_match (fits f k) s);
  find = λ s c f k. returns (record { elements = []; final_error = none });
  update_one = λ s c f u k. updates (fits f k) u s;
  insert_one = λ s c m. inserts m s;
  insert_many = λ s c ms. (s, some tt);
  delete_one = λ s c f k. (s, some tt);
  delete_many = λ s c f k. (s, some tt);
  count_documents = λ s c f. returns (length s);
  drop_collection = λ s c. ([], none);
  marshal_map = λ m. returns m;
  marshal_value = λ v. returns none;
  merge_patch = λ a b. returns b;
  decode_patch = λ j. returns j;
  apply_patch = λ p j. returns p;
  unmarshal = λ j. returns j;
}

pub finds :
    (p : Document ℕ → Bool) (l : List (Document ℕ))
    → Finds p {E = Unit {0}} l (found_or_not (first_match p l))
finds p [] = refl
finds p (x ∷ l) = elim (Bool-cases (p x)) [
  | inl e ↦ rw e ([], l, refl, e)
  | inr e ↦ rw e (behind p x e (first_match p l) l (finds p l))
]
  where
    behind :
        (p : Document ℕ → Bool) (x : Document ℕ)
        → p x ≡ false
        → (r : Option (Document ℕ)) (l : List (Document ℕ))
        → Finds p {E = Unit {0}} l (found_or_not r)
        → Finds p {E = Unit {0}} (x ∷ l) (found_or_not r)
    behind p x e none l h = rw e h
    behind p x e (some d) l (before, after, at, holds) =
        (x ∷ before, after, ap (λ t. x ∷ t) at, holds)

sets_one :
    (p : Document ℕ → Bool) (m : Document ℕ) (l : List (Document ℕ))
    → SetsOne p (some m) l (update_first p (changed (set (some m))) l)
sets_one p m [] = inl (refl, refl)
sets_one p m (x ∷ l) = elim (Bool-cases (p x)) [
  | inl e ↦
      rw e (inr (m, x, m ++ x, [], l, refl, refl, e, refl, λ plain key h. lookup-append m x key))
  | inr e ↦ elim (sets_one p m l) [
    | inl (absent, same) ↦ rw (e, same) (inl (absent, refl))
    | inr (fields, d, d', before, after, is, at, holds, at', sets) ↦ rw e (
        inr (
          fields,
          d,
          d',
          x ∷ before,
          after,
          is,
          ap (λ t. x ∷ t) at,
          holds,
          ap (λ t. x ∷ t) at',
          sets,
        ))
  ]
]

pub updates_lem :
    (p : Document ℕ → Bool) (m : GoMap ℕ) (l l' : List (Document ℕ))
    → updates p (set m) l ≡ (l', none)
    → SetsOne p m l l'
updates_lem p none l l' h = cc
updates_lem p (some m) l l' h =
    let same : update_first p (changed (set (some m))) l ≡ l' = cc in rw same at (sets_one p m l)

pub inserts_lem :
    (m : GoMap ℕ) (l l' : List (Document ℕ)) → inserts m l ≡ (l', none) → Inserted m l l'
unfolding lookup
inserts_lem m l l' h = elim (Bool-cases (any (same_id (entries m)) l)) [
  | inl e ↦ let h' = rw e at h in cc
  | inr e ↦
      let h' = rw e at h in
      (
        with_id (length l) (entries m),
        l,
        [],
        sym (append-nil l),
        cc,
        λ key other. entries_kept key other (is_some (lookup "_id" (entries m))),
      )
]
  where
    entries_kept :
        (key : String)
        → key ≢ "_id"
        → (b : Bool)
        → lookup key (if b then entries m else ("_id", length l) ∷ entries m)
          ≡ lookup key (entries m)
    entries_kept key other true = refl
    entries_kept key other false = ground (arith, eq_iff "_id" key)
