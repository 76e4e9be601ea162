-- ===== src/Tests/Tables.antt =====
-- A concrete database table: `LIKE` knows the pattern `%` and plain texts, and queries are answered by
-- filtering and sorting the rows.
use mathlib.Core.List.{Perm}
use mathlib.Core.List.Perm
use rain_protocol.Prelude.{
  ◌≡◌, refl, String, Bool, ◌||◌, List, [], ◌∷◌, keep, take, All, All-weaken, Among, Option, none,
  some, inl, inr, str_eq, if◌then◌else◌, sym, Bool-cases, arith,
}
use rain_protocol.Prelude.Int.{ℤ, pos, negsuc, ◌≤ℤ◌, leb_ℤ}
use rain_protocol.Prelude.Result.{Result, ok, err, ok-injective}
use rain_protocol.Server.Reader.{Query, Table, meets_all, IsNewestFirst, IsLimit, limited}

abbrev matches : String → String → Bool
matches s pattern = str_eq pattern "%" || str_eq s pattern

module _ {Row : Type 0} where
  abbrev insert_newest : (Row → ℤ) → Row → List Row → List Row
  insert_newest time x [] = x ∷ []
  insert_newest time x (y ∷ ys) =
      if leb_ℤ (time y) (time x) then x ∷ (y ∷ ys) else y ∷ insert_newest time x ys

  abbrev newest_first : (Row → ℤ) → List Row → List Row
  newest_first time [] = []
  newest_first time (x ∷ xs) = insert_newest time x (newest_first time xs)

  insert_newest-perm :
      (time : Row → ℤ) (x : Row) (xs : List Row) → Perm (insert_newest time x xs) (x ∷ xs)
  insert_newest-perm time x [] = Perm.refl (x ∷ [])
  insert_newest-perm time x (y ∷ ys) = elim (Bool-cases (leb_ℤ (time y) (time x))) [
    | inl h ↦ rw h (Perm.refl (x ∷ (y ∷ ys)))
    | inr h ↦ rw h (Perm.trans (Perm.cons y (insert_newest-perm time x ys)) (Perm.swap x y ys))
  ]

  newest_first-perm : (time : Row → ℤ) (xs : List Row) → Perm (newest_first time xs) xs
  newest_first-perm time [] = Perm.refl []
  newest_first-perm time (x ∷ xs) =
      Perm.trans (insert_newest-perm time x (newest_first time xs))
        (Perm.cons x (newest_first-perm time xs))

  insert_newest-All :
      (time : Row → ℤ) (x : Row) (xs : List Row) (z : Row)
      → time x ≤ℤ time z
      → All (λ later. time later ≤ℤ time z) xs
      → All (λ later. time later ≤ℤ time z) (insert_newest time x xs)
  insert_newest-All time x [] z le h = (le, tt)
  insert_newest-All time x (y ∷ ys) z le (ly, h) = elim (Bool-cases (leb_ℤ (time y) (time x))) [
    | inl e ↦ rw e (le, (ly, h))
    | inr e ↦ rw e (ly, insert_newest-All time x ys z le h)
  ]

  insert_newest-IsNewestFirst :
      (time : Row → ℤ) (x : Row) (xs : List Row)
      → IsNewestFirst time xs
      → IsNewestFirst time (insert_newest time x xs)
  insert_newest-IsNewestFirst time x [] h = (tt, tt)
  insert_newest-IsNewestFirst time x (y ∷ ys) (le, h) =
      elim (Bool-cases (leb_ℤ (time y) (time x))) [
        | inl e ↦
            let yx : time y ≤ℤ time x = ground arith in
            rw e ((yx, All-weaken _ ys (λ z zy. omega arith) le), (le, h))
        | inr e ↦
            let xy : time x ≤ℤ time y = ground arith in
            rw e (insert_newest-All time x ys y xy le, insert_newest-IsNewestFirst time x ys h)
      ]

  newest_first-IsNewestFirst :
      (time : Row → ℤ) (xs : List Row) → IsNewestFirst time (newest_first time xs)
  newest_first-IsNewestFirst time [] = tt
  newest_first-IsNewestFirst time (x ∷ xs) =
      insert_newest-IsNewestFirst time x (newest_first time xs) (newest_first-IsNewestFirst time xs)

  abbrev bounded : Option ℤ → List Row → Result (List Row) String
  bounded none ordered = ok ordered
  bounded (some (pos n)) ordered = ok (take n ordered)
  bounded (some (negsuc n)) ordered = err "LIMIT must not be negative"

  bounded_answer :
      (o : Option ℤ) (ordered found : List Row)
      → bounded o ordered ≡ ok found
      → IsLimit o × (found ≡ limited o ordered)
  bounded_answer none ordered found h = (tt, ok-injective (sym h))
  bounded_answer (some (pos n)) ordered found h = (omega arith, ok-injective (sym h))
  bounded_answer (some (negsuc n)) ordered found h = ground arith

  abbrev get : List Row → Query Row → Result (List Row) String
  get rows q =
      bounded q.limit (newest_first q.order_by_desc (keep (meets_all matches q.filters) rows))

  abbrev first : List Row → Result Row String
  first [] = err "Record not found"
  first (row ∷ rows) = ok row

  pub first-Among : (rows : List Row) (row : Row) → first rows ≡ ok row → Among row rows
  first-Among [] row h = cc
  first-Among (r ∷ rows) row h = inl (ok-injective h)

  pub get_answer :
      (rows : List Row) (q : Query Row) (found : List Row)
      → get rows q ≡ ok found
      → IsLimit q.limit
        × ((ordered : List Row) × Perm ordered (keep (meets_all matches q.filters) rows)
            × IsNewestFirst q.order_by_desc ordered
            × (found ≡ limited q.limit ordered))
  get_answer rows q found h =
      let ordered = newest_first q.order_by_desc (keep (meets_all matches q.filters) rows) in
      let (limit, same) = bounded_answer q.limit ordered found h in
      (
        limit,
        (
          ordered,
          newest_first-perm q.order_by_desc (keep (meets_all matches q.filters) rows),
          newest_first-IsNewestFirst q.order_by_desc (keep (meets_all matches q.filters) rows),
          same,
        ),
      )

  -- A table with these rows, which can be read.
  abbrev pub table_of : List Row → Table Row
  table_of rows = record {
    rows = rows;
    like_op = matches;
    connect = ok tt;
    get_results = get rows;
    get_first = λ filters. first (keep (meets_all matches filters) rows);
    like_any = λ s. refl;
    answer = get_answer rows;
    first_answer = λ filters row h. first-Among _ row h;
  }
