-- ===== src/Server/Volume/Laws.antt =====
-- What the volume endpoints add up.
use Prim.Native.Char.{code}
use text.Mathlib.TextLemmas.{nil-append, cons-append}
use rain_protocol.Prelude.{
  map, ℕ, ◌+◌, ◌%◌, ◌^◌, ◌<◌, String, Bool, true, false, List, [], ◌∷◌, ◌<>◌, Option, none, some,
  filter_map, unwrap_or, str_eq, eq_iff, ◌≡◌, ◌≢◌, refl, ap, ◌∙◌, arith, All, Bool-cases, inl, inr,
  ◌⊎◌, if◌then◌else◌,
}
use rain_protocol.Prelude.Int.{ℤ}
use rain_protocol.Prelude.Words.{as_u64, add_u64}
use rain_protocol.Prelude.Text.{split, join}
use rain_protocol.Prelude.Map.{HashMap, get, get-insert, collect}
use rain_protocol.Prelude.Result.{Result, ok, err, ◌>>=◌}
use rain_protocol.Server.Error.{DeepBookError}
use rain_protocol.Server.Params.{Params, end_time, start_time_or_day, volume_in_base}
use rain_protocol.Schema.Row.Api.{Pools}
use rain_protocol.Server.Volume.{
  pool_ids, name_of, add_volume, aggregate, all_historical_volume, historical_volume,
  pool_name_to_id, no_pools, non_empty_or,
}

-- No character of the text has this code.
abbrev pub IsFree : ℕ → String → Type 0
IsFree sep String.[] = Unit
IsFree sep (String.◌∷◌ c s) = (code c ≢ sep) × IsFree sep s

split-append :
    (w rest : String) → IsFree b',' w → split b',' (w <> "," <> rest) ≡ w ∷ split b',' rest
unfolding split
split-append String.[] rest free = rw (nil-append, cons-append, nil-append)
split-append (String.◌∷◌ c w) rest (ne, free) =
    rw (cons-append, split-append w rest free) (ground arith)

split_free : (w : String) → IsFree b',' w → split b',' w ≡ w ∷ []
unfolding split
split_free String.[] free = refl
split_free (String.◌∷◌ c w) (ne, free) = rw (split_free w free) (ground arith)

-- Splitting at commas undoes joining with commas, for one name or more without commas.
pub split-join :
    (w : String) (ws : List String)
    → All (IsFree b',') (w ∷ ws)
    → split b',' (join "," (w ∷ ws)) ≡ w ∷ ws
unfolding join
split-join w [] (free, _) = split_free w free
split-join w (v ∷ ws) (free, rest) =
    split-append w (join "," (v ∷ ws)) free ∙ ap (λ parts. w ∷ parts) (split-join v ws rest)

-- The volume of a row whose pool has the name `found`, if that is the name asked for.
abbrev pub counted : String → Option String → ℤ → Option ℕ
counted name none volume = none
counted name (some found) volume = if str_eq found name then some (as_u64 volume) else none

-- The volumes of the rows of one pool name.
abbrev pub volumes_of : HashMap String → String → List (String × ℤ) → List ℕ
volumes_of name_to_id name rows =
    filter_map (λ (pool_id, volume). counted name (name_of name_to_id pool_id) volume) rows

abbrev pub sum : List ℕ → ℕ
sum [] = 0
sum (v ∷ vs) = v + sum vs

-- The entry of one name while rows are added.
abbrev extend : Option ℕ → List ℕ → Option ℕ
extend o [] = o
extend o (v ∷ vs) = extend (some (add_u64 (unwrap_or 0 o) v)) vs

abbrev prepend : Option ℕ → List ℕ → List ℕ
prepend none vs = vs
prepend (some v) vs = v ∷ vs

get-add_volume :
    (name : String) (volumes : HashMap ℕ) (o : Option String) (volume : ℤ) (vs : List ℕ)
    → extend (get name (add_volume volumes o volume)) vs
      ≡ extend (get name volumes) (prepend (counted name o volume) vs)
unfolding add_volume
get-add_volume name volumes none volume vs = refl
get-add_volume name volumes (some found) volume vs =
    rw get-insert (same (Bool-cases (str_eq found name)))
  where
    same :
        (str_eq found name ≡ true) ⊎ (str_eq found name ≡ false)
        → extend
            (if str_eq found name
              then some (add_u64 (unwrap_or 0 (get found volumes)) (as_u64 volume))
              else get name volumes)
            vs
          ≡ extend
              (get name volumes)
              (prepend (if str_eq found name then some (as_u64 volume) else none) vs)
    same (inl e) = rw (e, (eq_iff found name).0 e)
    same (inr e) = rw e

get-aggregate-extend :
    (name_to_id : HashMap String) (name : String) (volumes : HashMap ℕ) (rows : List (String × ℤ))
    → get name (aggregate name_to_id volumes rows)
      ≡ extend (get name volumes) (volumes_of name_to_id name rows)
unfolding aggregate
get-aggregate-extend name_to_id name volumes [] = refl
get-aggregate-extend name_to_id name volumes ((pool_id, volume) ∷ rest) =
    get-aggregate-extend name_to_id name (add_volume volumes (name_of name_to_id pool_id) volume)
      rest
    ∙ get-add_volume name volumes (name_of name_to_id pool_id) volume
        (volumes_of name_to_id name rest)
    ∙ ap (extend (get name volumes)) (prepended (counted name (name_of name_to_id pool_id) volume))
  where
    prepended :
        (o : Option ℕ)
        → prepend o (volumes_of name_to_id name rest) ≡ (elim o [
          | none ↦ volumes_of name_to_id name rest
          | some v ↦ v ∷ volumes_of name_to_id name rest
        ])
    prepended none = refl
    prepended (some v) = refl

extend-sum : (o : ℕ) (vs : List ℕ) → o < 2 ^ 64 → extend (some o) vs ≡ some ((o + sum vs) % 2 ^ 64)
unfolding add_u64
extend-sum o [] h = ap some (omega arith)
extend-sum o (v ∷ vs) h = extend-sum ((o + v) % 2 ^ 64) vs (omega arith) ∙ ap some (omega arith)

abbrev pub total : List ℕ → Option ℕ
total [] = none
total (v ∷ vs) = some (sum (v ∷ vs) % 2 ^ 64)

extend-total : (vs : List ℕ) → extend none vs ≡ total vs
unfolding add_u64
extend-total [] = refl
extend-total (v ∷ vs) = extend-sum ((0 + v) % 2 ^ 64) vs (omega arith) ∙ ap some (omega arith)

-- The volume that `aggregate` has for a pool name is the sum modulo 2^64 of the volumes of
-- the rows whose pool id belongs to that name, and a name without such a row is not reported.
pub get-aggregate :
    (name_to_id : HashMap String) (name : String) (rows : List (String × ℤ))
    → get name (aggregate name_to_id [] rows) ≡ total (volumes_of name_to_id name rows)
unfolding get
get-aggregate name_to_id name rows =
    get-aggregate-extend name_to_id name [] rows ∙ extend-total (volumes_of name_to_id name rows)

abbrev pub names_of : List Pools → List String
names_of pools = map (λ (p : Pools). p.pool_name) pools

-- If no pool name has a comma and there is a pool, the endpoint for all pools sums up the volumes of
-- the ids of all their names, in the order of the pools, over the requested range, and refuses the
-- request if no name has an id; with no pool at all it refuses the request too.
pub all_historical_volume-ids :
    (reader : ℤ → ℤ → List String → Bool → Result (List (String × ℤ)) DeepBookError) (now : ℤ)
    (params : Params) (p : Pools) (pools again : List Pools)
    → All (IsFree b',') (names_of (p ∷ pools))
    → let name_to_id = pool_name_to_id again in
      let ids = filter_map (λ n. get n name_to_id) (names_of (p ∷ pools)) in
      let end = end_time now params in
      (all_historical_volume reader now (p ∷ pools) again params
        ≡ non_empty_or no_pools ids (do
          rows ← reader (start_time_or_day end params) end ids (volume_in_base params)
          ok (aggregate name_to_id [] rows)))
      × (all_historical_volume reader now [] [] params ≡ err no_pools)
unfolding pool_ids all_historical_volume historical_volume pool_name_to_id get collect split join
all_historical_volume-ids reader now params p pools again free =
    let names = split-join p.pool_name (names_of pools) free in (rw names refl, refl)
