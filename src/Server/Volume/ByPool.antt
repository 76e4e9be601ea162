-- ===== src/Server/Volume/ByPool.antt =====
-- The volumes of pools that have ids and names of their own.
use rain_protocol.Prelude.{
  ℕ, String, Bool, List, [], ◌∷◌, Option, none, some, map, keep, find, filter_map, filter_map-ext,
  str_eq, eq_iff, ◌≡◌, ◌≢◌, refl, ap, inl, inr, arith, All, Among, Bool-cases, if◌then◌else◌,
}
use rain_protocol.Prelude.Int.{ℤ}
use rain_protocol.Prelude.Words.{as_u64}
use rain_protocol.Prelude.Text.{split}
use rain_protocol.Prelude.Map.{HashMap, get}
use rain_protocol.Prelude.Result.{Result, ok}
use rain_protocol.Prelude.Transfer.{DistinctBy, DistinctBy-map, All-Among}
use rain_protocol.Prelude.Entries.{collect_distinct}
use rain_protocol.Schema.Row.Api.{Pools}
use rain_protocol.Server.Error.{DeepBookError}
use rain_protocol.Server.Params.{Params, end_time, start_time_or_day, volume_in_base}
use rain_protocol.Server.Volume.{pool_ids, name_of, aggregate, pool_name_to_id, historical_volume}
use rain_protocol.Server.Volume.Laws.{counted, names_of, volumes_of, total, get-aggregate}

abbrev pub named : Pools → String × String
named p = (p.pool_name, p.pool_id)

-- The pools have ids and names of their own.
abbrev pub AreApart : List Pools → Type 0
AreApart pools =
    DistinctBy (λ (p : Pools). p.pool_id) pools × DistinctBy (λ (p : Pools). p.pool_name) pools

-- The volumes of the rows with this pool id.
abbrev pub volumes_at : String → List (String × ℤ) → List ℕ
volumes_at id rows = map (λ (i, volume). as_u64 volume) (keep (λ (i, volume). str_eq i id) rows)

-- The id of the pool with this name.
abbrev pub id_named : List Pools → String → Option String
id_named [] name = none
id_named (p ∷ pools) name = if str_eq p.pool_name name then some p.pool_id else id_named pools name

pub pool_name_to_id_apart :
    (pools : List Pools) → AreApart pools → pool_name_to_id pools ≡ map named pools
unfolding pool_name_to_id
pool_name_to_id_apart pools (ids, names) =
    collect_distinct (map named pools)
      (DistinctBy-map (λ (e : String × String). e.0) named pools names)

get-named : (pools : List Pools) (name : String) → get name (map named pools) ≡ id_named pools name
unfolding get
get-named [] name = refl
get-named (p ∷ pools) name = rw (get-named pools name) refl

-- The name of the first pool with this id.
abbrev name_at : List Pools → String → Option String
name_at [] id = none
name_at (p ∷ pools) id = if str_eq p.pool_id id then some p.pool_name else name_at pools id

name_of-named : (pools : List Pools) (id : String) → name_of (map named pools) id ≡ name_at pools id
unfolding name_of
name_of-named [] id = refl
name_of-named (p ∷ pools) id = elim (Bool-cases (str_eq p.pool_id id)) [
  | inl e ↦ rw (name_of, find, name_at, e) refl
  | inr e ↦ rw (name_of, find, name_at, e) (name_of-named pools id)
]

counted_elsewhere :
    (name : String) (pools : List Pools) (id : String) (v : ℤ)
    → All (λ (q : Pools). name ≢ q.pool_name) pools
    → counted name (name_at pools id) v ≡ none
counted_elsewhere name [] id v h = refl
counted_elsewhere name (q ∷ pools) id v (ne, h) = elim (Bool-cases (str_eq q.pool_id id)) [
  | inl e ↦ rw (name_at, e) (ground (arith, eq_iff q.pool_name name))
  | inr e ↦ rw (name_at, e) (counted_elsewhere name pools id v h)
]

counted_here :
    (p : Pools) (pools : List Pools) (id : String) (v : ℤ)
    → AreApart pools
    → Among p pools
    → counted p.pool_name (name_at pools id) v
      ≡ (if str_eq id p.pool_id then some (as_u64 v) else none)
counted_here p (q ∷ pools) id v ((id_fresh, ids), (name_fresh, names)) (inl same) =
    elim (Bool-cases (str_eq q.pool_id id)) [
      | inl e ↦
          let here : q.pool_id ≡ id = (eq_iff q.pool_id id).0 e in
          rw (name_at, e, ← same)
            (ground (arith, here, eq_iff id q.pool_id, eq_iff q.pool_name q.pool_name))
      | inr e ↦
          rw (name_at, e, ← same, counted_elsewhere q.pool_name pools id v name_fresh)
            (ground (arith, eq_iff id q.pool_id, eq_iff q.pool_id id))
    ]
counted_here p (q ∷ pools) id v ((id_fresh, ids), (name_fresh, names)) (inr later) =
    let other_id : q.pool_id ≢ p.pool_id =
      All-Among (λ (r : Pools). q.pool_id ≢ r.pool_id) p pools id_fresh later in
    let other_name : q.pool_name ≢ p.pool_name =
      All-Among (λ (r : Pools). q.pool_name ≢ r.pool_name) p pools name_fresh later in
    elim (Bool-cases (str_eq q.pool_id id)) [
      | inl e ↦
          rw (name_at, e)
            (ground
              (arith, eq_iff q.pool_id id, eq_iff id p.pool_id, eq_iff q.pool_name p.pool_name))
      | inr e ↦ rw (name_at, e) (counted_here p pools id v (ids, names) later)
    ]
counted_here p [] id v d a = elim a [ ]

All-from : {A : Type 0} {P : A → Type 0} (xs : List A) → ((x : A) → Among x xs → P x) → All P xs
All-from [] f = tt
All-from (x ∷ xs) f = (f x (inl refl), All-from xs (λ y h. f y (inr h)))

module _ (pools : List Pools) (apart : AreApart pools) where
  volumes_of-at :
      (p : Pools) (rows : List (String × ℤ))
      → Among p pools
      → volumes_of (map named pools) p.pool_name rows ≡ volumes_at p.pool_id rows
  volumes_of-at p [] among = refl
  volumes_of-at p ((id, v) ∷ rows) among = elim (Bool-cases (str_eq id p.pool_id)) [
    | inl e ↦
        rw (filter_map, name_of-named pools id, counted_here p pools id v apart among, keep, e)
          (ap (λ vs. as_u64 v ∷ vs) (volumes_of-at p rows among))
    | inr e ↦
        rw (filter_map, name_of-named pools id, counted_here p pools id v apart among, keep, e)
          (volumes_of-at p rows among)
  ]

  volumes_of_elsewhere :
      (name : String) (rows : List (String × ℤ))
      → All (λ (q : Pools). name ≢ q.pool_name) pools
      → volumes_of (map named pools) name rows ≡ []
  volumes_of_elsewhere name [] h = refl
  volumes_of_elsewhere name ((id, v) ∷ rows) h =
      rw (filter_map, name_of-named pools id, counted_elsewhere name pools id v h)
        (volumes_of_elsewhere name rows h)

  -- What is reported for a pool is the total over its id, and nothing else is reported.
  pub get-aggregate-at :
      (p : Pools) (rows : List (String × ℤ))
      → Among p pools
      → get p.pool_name (aggregate (pool_name_to_id pools) [] rows)
        ≡ total (volumes_at p.pool_id rows)
  get-aggregate-at p rows among =
      rw
        (
          pool_name_to_id_apart pools apart,
          get-aggregate (map named pools) p.pool_name rows,
          volumes_of-at p rows among,
        )
        refl

  pub get-aggregate_elsewhere :
      (name : String) (rows : List (String × ℤ))
      → All (λ (q : Pools). name ≢ q.pool_name) pools
      → get name (aggregate (pool_name_to_id pools) [] rows) ≡ none
  get-aggregate_elsewhere name rows h =
      rw
        (
          pool_name_to_id_apart pools apart,
          get-aggregate (map named pools) name rows,
          volumes_of_elsewhere name rows h,
        )
        refl

pool_ids-named :
    (pools : List Pools) (names : List String)
    → filter_map (λ name. get name (map named pools)) names ≡ filter_map (id_named pools) names
pool_ids-named pools names = filter_map-ext _ _ names (get-named pools)

-- If no two pools have the same id or the same name, at least one name of the request is that of a
-- pool, and the reader answers for the ids of all such names over the requested range with some rows,
-- then `historical_volume` answers: for the name of each pool with the sum modulo 2^64 of the volumes of the rows with this
-- pool's id, or nothing if there is no such row, and with nothing for another name.
pub historical_volume-sums :
    (reader : ℤ → ℤ → List String → Bool → Result (List (String × ℤ)) DeepBookError) (now : ℤ)
    (pools : List Pools) (pool_names : String) (params : Params) (id : String) (ids : List String)
    (rows : List (String × ℤ))
    → AreApart pools
    → filter_map (id_named pools) (split b',' pool_names) ≡ id ∷ ids
    → let end = end_time now params in
      reader (start_time_or_day end params) end (id ∷ ids) (volume_in_base params) ≡ ok rows
      → (out : HashMap ℕ) × (historical_volume reader now pools pool_names params ≡ ok out)
        × All (λ (p : Pools). get p.pool_name out ≡ total (volumes_at p.pool_id rows)) pools
        × ((name : String) → All (λ (q : Pools). name ≢ q.pool_name) pools → get name out ≡ none)
unfolding historical_volume pool_ids
historical_volume-sums reader now pools pool_names params id ids rows apart wanted answered = (
  aggregate (pool_name_to_id pools) [] rows,
  rw
      (
        pool_name_to_id_apart pools apart,
        pool_ids-named pools (split b',' pool_names),
        wanted,
        answered,
      )
      refl,
  All-from pools (λ p among. get-aggregate-at pools apart p rows among),
  λ name others. get-aggregate_elsewhere pools apart name rows others,
)

id_named-here :
    (pools : List Pools) (p : Pools)
    → DistinctBy (λ (q : Pools). q.pool_name) pools
    → Among p pools
    → id_named pools p.pool_name ≡ some p.pool_id
id_named-here [] p d a = elim a [ ]
id_named-here (q ∷ pools) p (fresh, d) (inl same) =
    rw (← same) (ground (arith, eq_iff q.pool_name q.pool_name))
id_named-here (q ∷ pools) p (fresh, d) (inr later) =
    let apart : q.pool_name ≢ p.pool_name =
      All-Among (λ (r : Pools). q.pool_name ≢ r.pool_name) p pools fresh later in
    ground (arith, eq_iff q.pool_name p.pool_name, id_named-here pools p d later)

filter_map-map :
    {A B C : Type 0} (f : B → Option C) (g : A → B) (h : A → C) (xs : List A)
    → All (λ x. f (g x) ≡ some (h x)) xs
    → filter_map f (map g xs) ≡ map h xs
filter_map-map f g h [] all = refl
filter_map-map f g h (x ∷ xs) (e, all) =
    rw (map, filter_map, e) (ap (λ ys. h x ∷ ys) (filter_map-map f g h xs all))

-- The names of all pools have the ids of all pools.
pub pool_ids-all :
    (pools : List Pools)
    → AreApart pools
    → filter_map (λ name. get name (pool_name_to_id pools)) (names_of pools)
      ≡ map (λ (p : Pools). p.pool_id) pools
pool_ids-all pools (ids, names) =
    rw (pool_name_to_id_apart pools (ids, names), pool_ids-named pools (names_of pools))
      (filter_map-map (id_named pools) (λ (p : Pools). p.pool_name) (λ (p : Pools). p.pool_id) pools
        (All-from pools (λ p among. id_named-here pools p names among)))
