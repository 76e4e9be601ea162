-- ===== src/Server/Reader/Latest.antt =====
-- What a query for the newest rows returns, without the query: the contract of the endpoints.
use mathlib.Core.List.{Perm}
use rain_protocol.Prelude.{
  ◌≡◌, refl, String, Bool, true, ◌&&◌, ◌||◌, List, [], ◌∷◌, ◌++◌, keep, keep_ext, take, drop,
  length, take-append-drop, drop_cases, All, All-append_inv, some, ◌⊎◌, inl, inr, Bool-cases, arith,
}
use rain_protocol.Prelude.Int.{ℤ, pos, negsuc, ◌≤ℤ◌, leb_ℤ, pos_part}
use rain_protocol.Prelude.Text.{is_empty}
use rain_protocol.Prelude.Result.{err, Result, ok}
use rain_protocol.Server.Error.{DeepBookError, internal}
use rain_protocol.Server.Params.{Params, end_time, start_time_or_day, limit, get_or_default}
use rain_protocol.Server.Reader.{
  Filter, between, like, to_pattern, meets, meets_all, Query, Table, RpcMetrics, results, counted,
  IsNewestFirst, failed, succeeded,
}

-- The optional filters of a request: a parameter, and the column that it selects by.
abbrev pub Columns : Type 0 → Type 0
Columns Row = List (String × (Row → String))

module _ {Row : Type 0} where
  -- A row that the request asks for: each parameter that is given and not empty fits its column.
  abbrev pub chosen : (String → String → Bool) → Columns Row → Params → Row → Bool
  chosen like_op [] params row = true
  chosen like_op ((name, column) ∷ columns) params row =
      (is_empty (get_or_default name params) || like_op (column row) (get_or_default name params))
      && chosen like_op columns params row

  abbrev pub in_range : (Row → ℤ) → ℤ → Params → Row → Bool
  in_range time now params row =
      leb_ℤ (start_time_or_day (end_time now params) params) (time row)
      && leb_ℤ (time row) (end_time now params)

  -- The rows found are the newest of those asked for: together with the rest they are all of them, no
  -- row of the rest is newer than one of them, and there is a rest only if the limit is reached.
  pub record IsLatest (wanted : List Row) (time : Row → ℤ) (limit : ℤ) (found : List Row)
      : Type 0 where
    pub rest : List Row
    pub all : Perm (found ++ rest) wanted
    pub newest_first : IsNewestFirst time found
    pub rest_older : All (λ row. All (λ other. time other ≤ℤ time row) rest) found
    pub at_most : pos (length found) ≤ℤ limit
    pub full : (rest ≡ []) ⊎ (pos (length found) ≡ limit)

  abbrev pub like_filters : Columns Row → Params → List (Filter Row)
  like_filters [] params = []
  like_filters ((name, column) ∷ columns) params =
      like column (to_pattern (get_or_default name params)) ∷ like_filters columns params

  abbrev pub event_query : (Row → ℤ) → Columns Row → ℤ → Params → Query Row
  event_query time columns now params = record {
    filters =
        between time (start_time_or_day (end_time now params) params) (end_time now params)
        ∷ like_filters columns params;
    order_by_desc = time;
    limit = some (limit params);
  }

  meets-to_pattern :
      (t : Table Row) (value : String) (s : String)
      → t.like_op s (to_pattern value) ≡ (is_empty value || t.like_op s value)
  unfolding to_pattern
  meets-to_pattern t value s = elim (Bool-cases (is_empty value)) [
    | inl h ↦ rw h (t.like_any s)
    | inr h ↦ rw h refl
  ]

  meets_all-chosen :
      (t : Table Row) (columns : Columns Row) (params : Params) (row : Row)
      → meets_all t.like_op (like_filters columns params) row ≡ chosen t.like_op columns params row
  unfolding meets_all meets
  meets_all-chosen t [] params row = refl
  meets_all-chosen t ((name, column) ∷ columns) params row =
      rw
        (
          meets-to_pattern t (get_or_default name params) (column row),
          meets_all-chosen t columns params row,
        )
        refl

  pub IsNewestFirst-append :
      (time : Row → ℤ) (xs ys : List Row)
      → IsNewestFirst time (xs ++ ys)
      → IsNewestFirst time xs × All (λ row. All (λ other. time other ≤ℤ time row) ys) xs
  IsNewestFirst-append time [] ys h = (tt, tt)
  IsNewestFirst-append time (x ∷ xs) ys (le, h) =
      let (le_xs, le_ys) = All-append_inv (λ later. time later ≤ℤ time x) xs ys le in
      let (first, older) = IsNewestFirst-append time xs ys h in ((le_xs, first), (le_ys, older))

  -- Inversion of a call of the reader that succeeds.
  pub counted-eq-ok :
      (to_error : String → DeepBookError) (connect : Result Unit String)
      (res : Result (List Row) String) (m m' : RpcMetrics) (found : List Row)
      → counted to_error connect res m ≡ (ok found, m')
      → (res ≡ ok found) × (m' ≡ succeeded m)
  unfolding counted
  counted-eq-ok to_error connect res m m' found h = ground arith

  -- One that fails: the connection failed and nothing is counted, or the query did and is counted.
  pub counted-eq-err :
      (to_error : String → DeepBookError) (connect : Result Unit String)
      (res : Result (List Row) String) (m m' : RpcMetrics) (e : DeepBookError)
      → counted to_error connect res m ≡ (err e, m')
      → ((text : String) × (connect ≡ err text) × (e ≡ internal text) × (m' ≡ m))
        ⊎ ((text : String) × (connect ≡ ok tt)
            × (res ≡ err text)
            × (e ≡ to_error text)
            × (m' ≡ failed m))
  unfolding counted
  counted-eq-err to_error (err text) res m m' e h = inl (text, refl, cc, cc)
  counted-eq-err to_error (ok _) (err text) m m' e h = inr (text, refl, refl, cc, cc)
  counted-eq-err to_error (ok _) (ok found) m m' e h = ground arith

  pub results-eq-ok :
      (t : Table Row) (q : Query Row) (m m' : RpcMetrics) (found : List Row)
      → results t q m ≡ (ok found, m')
      → (t.get_results q ≡ ok found) × (m' ≡ succeeded m)
  unfolding results
  results-eq-ok t q m m' found h = counted-eq-ok internal t.connect (t.get_results q) m m' found h

  pub taken_limit :
      (z : ℤ) (xs : List Row)
      → pos 0 ≤ℤ z
      → (pos (length (take (pos_part z) xs)) ≤ℤ z)
        × ((drop (pos_part z) xs ≡ []) ⊎ (pos (length (take (pos_part z) xs)) ≡ z))
  taken_limit (pos n) xs h = ground (arith, drop_cases n xs)
  taken_limit (negsuc n) xs h = ground arith

  take-IsLatest :
      (wanted ordered : List Row) (time : Row → ℤ) (z : ℤ)
      → pos 0 ≤ℤ z
      → Perm ordered wanted
      → IsNewestFirst time ordered
      → IsLatest wanted time z (take (pos_part z) ordered)
  take-IsLatest wanted ordered time z h perm sorted =
      let n = pos_part z in
      let same = take-append-drop n ordered in
      let (first, older) =
        IsNewestFirst-append time (take n ordered) (drop n ordered) (rw same sorted) in
      let (at_most, full) = taken_limit z ordered h in
      record {
        rest = drop n ordered;
        all = rw same perm;
        newest_first = first;
        rest_older = older;
        at_most = at_most;
        full = full;
      }

  -- An answered query with a limit.
  pub answer-IsLatest :
      (t : Table Row) (filters : List (Filter Row)) (time : Row → ℤ) (z : ℤ) (found : List Row)
      → t.get_results (record { filters = filters; order_by_desc = time; limit = some z })
        ≡ ok found
      → IsLatest (keep (meets_all t.like_op filters) t.rows) time z found
  answer-IsLatest t filters time z found got =
      let (not_negative, (ordered, perm, sorted, same)) = t.answer _ found got in
      rw same (take-IsLatest _ ordered time z not_negative perm sorted)

  -- The rows of a table that a request asks for.
  abbrev pub wanted_rows : Table Row → (Row → ℤ) → Columns Row → ℤ → Params → List Row
  wanted_rows t time columns now params =
      keep (λ row. in_range time now params row && chosen t.like_op columns params row) t.rows

  wanted_rows-meets_all :
      (t : Table Row) (time : Row → ℤ) (columns : Columns Row) (now : ℤ) (params : Params)
      → keep (meets_all t.like_op (event_query time columns now params).filters) t.rows
        ≡ wanted_rows t time columns now params
  unfolding meets_all meets
  wanted_rows-meets_all t time columns now params =
      keep_ext _ _ t.rows λ row. rw (meets_all-chosen t columns params row) refl

  pub results-IsLatest :
      (t : Table Row) (time : Row → ℤ) (columns : Columns Row) (now : ℤ) (params : Params)
      (m m' : RpcMetrics) (found : List Row)
      → results t (event_query time columns now params) m ≡ (ok found, m')
      → IsLatest (wanted_rows t time columns now params) time (limit params) found
  results-IsLatest t time columns now params m m' found h =
      let (got, _) = results-eq-ok t (event_query time columns now params) m m' found h in
      rw (← wanted_rows-meets_all t time columns now params) (
        answer-IsLatest t (event_query time columns now params).filters time (limit params) found
          got)
