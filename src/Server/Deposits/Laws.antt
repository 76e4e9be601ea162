-- ===== src/Server/Deposits/Laws.antt =====
-- What `deposited_assets` and `get_points` answer for each id of the request.
use rain_protocol.Prelude.{
  String, List, [], ◌∷◌, ◌++◌, map, none, some, unwrap_or, str_eq, eq_iff, ◌≡◌, refl, ap, ◌∙◌, any,
  Bool-cases, inl, inr, if◌then◌else◌,
}
use mathlib.Core.List.{append_assoc, append-nil}
use rain_protocol.Prelude.Int.{ℤ, pos}
use rain_protocol.Prelude.Map.{
  last_onto, get-collect_onto, HashMap, get, insert, remove, collect, last_onto, get-collect_onto,
  get-insert, get-remove,
}
use rain_protocol.Prelude.Result.{Result, ok}
use rain_protocol.Server.Error.{DeepBookError}
use rain_protocol.Server.Admin.{non_empty_parts}
use rain_protocol.Server.Deposits.{
  BalanceManagerDepositedAssets, group_assets, answer_assets, deposited_assets, AddressPoints,
  points_of, get_points,
}

-- The assets of the rows of one id, in their order.
abbrev pub assets_of : String → List (String × String) → List String
assets_of id [] = []
assets_of id ((k, asset) ∷ rest) =
    if str_eq k id then asset ∷ assets_of id rest else assets_of id rest

get-group_assets :
    (id : String) (m : HashMap (List String)) (rows : List (String × String))
    → unwrap_or [] (get id (group_assets m rows)) ≡ unwrap_or [] (get id m) ++ assets_of id rows
unfolding group_assets
get-group_assets id m [] = rw append-nil
get-group_assets id m ((k, asset) ∷ rest) =
    let rec = get-group_assets id (insert k (unwrap_or [] (get k m) ++ (asset ∷ [])) m) rest in
    elim (Bool-cases (str_eq k id)) [
      | inl e ↦
          rec
          ∙ rw (get-insert, e)
              (rw ((eq_iff k id).0 e)
                (append_assoc (unwrap_or [] (get id m)) (asset ∷ []) (assets_of id rest)))
      | inr e ↦ rec ∙ rw (get-insert, e) refl
    ]

-- One answer for each id of the request, in its order: the first time an id comes, the assets of its
-- rows, and after that none.
abbrev pub expected :
    List (String × String) → List String → List String → List BalanceManagerDepositedAssets
expected rows seen [] = []
expected rows seen (id ∷ ids) =
    record {
      balance_manager_id = id;
      assets = if any (λ s. str_eq s id) seen then [] else assets_of id rows;
    }
    ∷ expected rows (id ∷ seen) ids

module _ (rows : List (String × String)) where
  -- What the map holds once the ids `seen` were answered.
  Left : List String → HashMap (List String) → Type 0
  Left seen m =
      (j : String)
      → unwrap_or [] (get j m) ≡ (if any (λ s. str_eq s j) seen then [] else assets_of j rows)

  remove-Left :
      (seen : List String) (m : HashMap (List String)) (id : String)
      → Left seen m
      → Left (id ∷ seen) (remove id m)
  unfolding Left
  remove-Left seen m id left j = elim (Bool-cases (str_eq id j)) [
    | inl e ↦ rw (get-remove, e) refl
    | inr e ↦ rw (get-remove, e) (left j)
  ]

  answer_assets-expected :
      (ids seen : List String) (m : HashMap (List String))
      → Left seen m
      → answer_assets m ids ≡ expected rows seen ids
  unfolding answer_assets Left
  answer_assets-expected [] seen m left = refl
  answer_assets-expected (id ∷ ids) seen m left =
      let head : unwrap_or [] (get id m) ≡ _ = left id in
      rw (head, answer_assets-expected ids (id ∷ seen) (remove id m) (remove-Left seen m id left))

-- If the request names one id or more and the query succeeds, there is one answer for each id, in the
-- order of the request: the assets of the rows with that id the first time it comes, and no asset each
-- further time.
pub deposited_assets-expected :
    (reader : List String → Result (List (String × String)) DeepBookError) (request id : String)
    (ids : List String) (rows : List (String × String))
    → non_empty_parts request ≡ id ∷ ids
    → reader (id ∷ ids) ≡ ok rows
    → deposited_assets reader request ≡ ok (expected rows [] (id ∷ ids))
unfolding deposited_assets get Left
deposited_assets-expected reader request id ids rows named answered =
    rw (deposited_assets, named, answered)
      (ap ok (answer_assets-expected rows (id ∷ ids) [] _ (λ j. get-group_assets j [] rows)))

map-ext : {A B : Type 0} {f g : A → B} (xs : List A) → ((x : A) → f x ≡ g x) → map f xs ≡ map g xs
map-ext [] e = refl
map-ext (x ∷ xs) e = rw (e x, map-ext xs e)

-- The total of one address.
abbrev pub last_points : List (String × ℤ) → String → AddressPoints
last_points rows a = record {
  address = a;
  total_points = unwrap_or (pos 0) (last_onto none a rows);
}

-- If the request names one address or more and the query succeeds, every address of the request has
-- its total, in the order of the request: that of the last row with the address, or zero.
pub get_points-last :
    (reader : List String → Result (List (String × ℤ)) DeepBookError) (request addr : String)
    (addrs : List String) (rows : List (String × ℤ))
    → non_empty_parts request ≡ addr ∷ addrs
    → reader (addr ∷ addrs) ≡ ok rows
    → get_points reader (some request) ≡ ok (map (last_points rows) (addr ∷ addrs))
unfolding get_points collect get
get_points-last reader request addr addrs rows named answered =
    rw (get_points, named, answered)
      (ap ok (
        map-ext {f = points_of (collect rows)} {g = last_points rows} (addr ∷ addrs)
          (λ a. rw (get-collect_onto a [] rows))))
