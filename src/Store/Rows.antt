-- ===== src/Store/Rows.antt =====
-- Reading back a table whose rows were written from models, one for one.
use autonomous_software_engi.Prelude.{
  select, All, ℕ, ◌≤◌, ◌<◌, String, ◌≡◌, refl, sym, ap, ◌∙◌, Bool, true, false, none, some, List,
  [], ◌∷◌, ◌++◌, map, arith, str_eq, eq_iff,
}
use autonomous_software_engi.Prelude.Sorting.{
  sort_by, reversed, insert_by, AllPairs, sort_by-ordered,
}
use autonomous_software_engi.Prelude.Dict.{Dict, insert, lookup, values}
use autonomous_software_engi.Exec.{ok}
use autonomous_software_engi.Store.Sqlite.{
  Codec, RoundTrips, TraceRow, load_all, insert_or_replace, select_by_idx,
}

pub load_all-dump :
    {J A : Type 0} (codec : Codec J A)
    → RoundTrips codec
    → (xs : List A) → load_all codec (map codec.dump xs) ≡ ok xs
unfolding load_all
load_all-dump codec h [] = refl
load_all-dump codec h (x ∷ xs) = rw (h x, load_all-dump codec h xs) refl

module _ {A B : Type 0} (f : A → B) where
  pub select-map :
      (p : B → Bool) (xs : List A) → select p (map f xs) ≡ map f (select (λ x. p (f x)) xs)
  select-map p [] = refl
  select-map p (x ∷ xs) = ground (arith, select-map p xs)

  insert_by-map :
      (key : B → ℕ) (x : A) (xs : List A)
      → insert_by key (f x) (map f xs) ≡ map f (insert_by (λ y. key (f y)) x xs)
  unfolding insert_by
  insert_by-map key x [] = refl
  insert_by-map key x (y ∷ ys) = ground (arith, insert_by-map key x ys)

  pub sort_by-map :
      (key : B → ℕ) (xs : List A) → sort_by key (map f xs) ≡ map f (sort_by (λ y. key (f y)) xs)
  unfolding sort_by
  sort_by-map key [] = refl
  sort_by-map key (x ∷ xs) =
      ap (insert_by key (f x)) (sort_by-map key xs)
      ∙ insert_by-map key x (sort_by (λ y. key (f y)) xs)

  pub map-append : (xs : List A) (y : A) → map f (xs ++ y ∷ []) ≡ map f xs ++ f y ∷ []
  map-append [] y = refl
  map-append (x ∷ xs) y = ap (◌∷◌ (f x)) (map-append xs y)

  pub reversed-map : (xs : List A) → reversed (map f xs) ≡ map f (reversed xs)
  unfolding reversed
  reversed-map [] = refl
  reversed-map (x ∷ xs) =
      ap (λ ys. ys ++ f x ∷ []) (reversed-map xs) ∙ sym (map-append (reversed xs) x)

  -- A dict with each value changed.
  abbrev pub map_values : Dict A → Dict B
  map_values [] = []
  map_values ((k, v) ∷ rest) = (k, f v) ∷ map_values rest

  pub insert-map_values :
      (key : String) (v : A) (d : Dict A)
      → insert key (f v) (map_values d) ≡ map_values (insert key v d)
  unfolding insert
  insert-map_values key v [] = refl
  insert-map_values key v ((k, old) ∷ rest) = ground (arith, insert-map_values key v rest)

  pub lookup-map_values :
      (key : String) (d : Dict A)
      → lookup key (map_values d) ≡ elim (lookup key d) [ none ↦ none | some v ↦ some (f v) ]
  unfolding lookup
  lookup-map_values key [] = refl
  lookup-map_values key ((k, old) ∷ rest) = ground (arith, lookup-map_values key rest)

  pub values-map_values : (d : Dict A) → values (map_values d) ≡ map f (values d)
  values-map_values [] = refl
  values-map_values ((k, v) ∷ rest) = ap (◌∷◌ (f v)) (values-map_values rest)

pub select-all : {A : Type 0} (xs : List A) → select (λ x. true) xs ≡ xs
select-all [] = refl
select-all (x ∷ xs) = ap (◌∷◌ x) (select-all xs)

pub map-map :
    {A B C : Type 0} (g : B → C) (f : A → B) (xs : List A)
    → map g (map f xs) ≡ map (λ x. g (f x)) xs
map-map g f [] = refl
map-map g f (x ∷ xs) = ap (◌∷◌ (g (f x))) (map-map g f xs)

module _ {J A : Type 0} (codec : Codec J A) (owner : A → String) (index : A → ℕ) where
  -- The row that is written for a model.
  abbrev pub row_of : A → TraceRow J
  row_of a = record { run_id = owner a; idx = index a; body = codec.dump a }

  -- A later row of the same run has no smaller index, or a greater one.
  abbrev pub NotAfter : A → A → Type 0
  NotAfter x y = owner x ≡ owner y → index x ≤ index y

  abbrev pub Before : A → A → Type 0
  Before x y = owner x ≡ owner y → index x < index y

  later-ordered :
      (run_id : String) (x : A) (xs : List A)
      → owner x ≡ run_id
      → All (NotAfter x) xs
      → All (λ y. index x ≤ index y) (select (λ a. str_eq (owner a) run_id) xs)
  later-ordered run_id x [] e a = tt
  later-ordered run_id x (y ∷ ys) e a =
      by_owner (str_eq (owner y) run_id) refl (later-ordered run_id x ys e a.1)
    where
      by_owner :
          (b : Bool)
          → str_eq (owner y) run_id ≡ b
          → All (λ z. index x ≤ index z) (select (λ a. str_eq (owner a) run_id) ys)
          → All (λ z. index x ≤ index z) (select (λ a. str_eq (owner a) run_id) (y ∷ ys))
      by_owner true h ih = rw h (a.0 (e ∙ sym ((eq_iff (owner y) run_id).0 h)), ih)
      by_owner false h ih = rw h ih

  select-ordered :
      (run_id : String) (xs : List A)
      → AllPairs NotAfter xs
      → AllPairs (λ x y. index x ≤ index y) (select (λ a. str_eq (owner a) run_id) xs)
  select-ordered run_id [] p = tt
  select-ordered run_id (x ∷ xs) p =
      by_owner (str_eq (owner x) run_id) refl (select-ordered run_id xs p.1)
    where
      by_owner :
          (b : Bool)
          → str_eq (owner x) run_id ≡ b
          → AllPairs (λ x y. index x ≤ index y) (select (λ a. str_eq (owner a) run_id) xs)
          → AllPairs (λ x y. index x ≤ index y) (select (λ a. str_eq (owner a) run_id) (x ∷ xs))
      by_owner true h ih = rw h (later-ordered run_id x xs ((eq_iff (owner x) run_id).0 h) p.0, ih)
      by_owner false h ih = rw h ih

  -- The models of a run come back in the order in which they were written.
  pub select_by_idx-rows :
      RoundTrips codec
      → (run_id : String) (xs : List A) → AllPairs NotAfter xs
      → select_by_idx codec run_id (map row_of xs) ≡ ok (select (λ a. str_eq (owner a) run_id) xs)
  unfolding select_by_idx
  select_by_idx-rows h run_id xs p =
      rw
        (
          select-map row_of (λ (r : TraceRow J). str_eq r.run_id run_id) xs,
          sort_by-map row_of (λ (r : TraceRow J). r.idx) (select (λ a. str_eq (owner a) run_id) xs),
          sort_by-ordered index (select (λ a. str_eq (owner a) run_id) xs)
              (select-ordered run_id xs p),
          map-map (λ (r : TraceRow J). r.body) row_of (select (λ a. str_eq (owner a) run_id) xs),
        )
        (load_all-dump codec h (select (λ a. str_eq (owner a) run_id) xs))

  -- A row of a new index replaces none.
  pub insert_or_replace-fresh :
      (y : A) (xs : List A)
      → All (λ x. Before x y) xs
      → insert_or_replace (row_of y) (map row_of xs) ≡ map row_of (xs ++ y ∷ [])
  unfolding insert_or_replace
  insert_or_replace-fresh y [] a = refl
  insert_or_replace-fresh y (x ∷ xs) a =
      ground (arith, insert_or_replace-fresh y xs a.1, eq_iff (owner x) (owner y), a.0)
