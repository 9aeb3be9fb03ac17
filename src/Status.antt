-- ===== src/Status.antt =====
-- src/status.rs: the board of registration statuses. The map is a list of pairs of key and entry,
-- where every key stands at most once; the order of the `HashMap` is not modelled.
use sipbot.Prelude.{
  ℕ, ◌≡◌, refl, Bool, true, false, Bool-cases, inl, inr, Option, none, some, List, [], ◌∷◌, ◌++◌,
  ◌+◌, arith, map, if◌then◌else◌, ltb, ◌==◌, All,
}
use sipbot.Prelude.Text.{Text, text_eq, text_eq_iff}

pub record RegistrationStatus : Type 0 where
  pub username : Text
  pub domain : Text
  pub registered : Bool
  pub expires : Option ℕ
  pub transport : Option Text
  pub last_error : Option Text
  pub updated_at : Option ℕ

abbrev pub StatusBoard : Type 0
StatusBoard = List (Text × RegistrationStatus)

abbrev pub key_of : RegistrationStatus → Text
key_of status = status.username ++ b'@' ∷ status.domain

-- `HashMap::insert` and `HashMap::get`
unfoldable pub insert : StatusBoard → Text → RegistrationStatus → StatusBoard
insert [] k v = (k, v) ∷ []
insert ((k', v') ∷ board) k v =
    let rest = insert board k v in if text_eq k' k then (k, v) ∷ board else (k', v') ∷ rest

unfoldable pub lookup : StatusBoard → Text → Option RegistrationStatus
lookup [] k = none
lookup ((k', v') ∷ board) k = let rest = lookup board k in if text_eq k' k then some v' else rest

unfoldable pub set : StatusBoard → RegistrationStatus → StatusBoard
unfolding insert
set board status = insert board (key_of status) status

-- the order of strings, by code points
unfoldable pub text_le : Text → Text → Bool
text_le [] t = true
text_le (c ∷ s) [] = false
text_le (c ∷ s) (d ∷ t) =
    let rest = text_le s t in if ltb c d then true else if c == d then rest else false

-- `sort_by` is stable
unfoldable pub insert_sorted :
    RegistrationStatus → List RegistrationStatus → List RegistrationStatus
insert_sorted x [] = x ∷ []
insert_sorted x (y ∷ ys) =
    let rest = insert_sorted x ys in if text_le x.username y.username then x ∷ y ∷ ys else y ∷ rest

unfoldable pub sort_by_username : List RegistrationStatus → List RegistrationStatus
unfolding insert_sorted
sort_by_username [] = []
sort_by_username (x ∷ xs) = insert_sorted x (sort_by_username xs)

unfoldable pub snapshot : StatusBoard → List RegistrationStatus
unfolding sort_by_username
snapshot board = sort_by_username (map (λ e. e.1) board)

lookup-insert :
    (board : StatusBoard) (k : Text) (v : RegistrationStatus) (k' : Text)
    → lookup (insert board k v) k' ≡ (if text_eq k k' then some v else lookup board k')
unfolding insert lookup
lookup-insert [] k v k' = refl
lookup-insert ((k1, v1) ∷ board) k v k' = elim (Bool-cases (text_eq k1 k)) [
  | inl same ↦ rw (same, (text_eq_iff k1 k).0 same) (unfold lookup in ground arith)
  | inr other ↦ elim (Bool-cases (text_eq k k')) [
    | inl is_k ↦
        let e : k ≡ k' = (text_eq_iff k k').0 is_k in
        rw (other, lookup) (ground (arith, lookup-insert board k v k', e))
    | inr not_k ↦ rw (other, lookup) (ground (arith, lookup-insert board k v k'))
  ]
]

-- The board after a report: under the key `username@domain` of the report stands that status, and
-- under every other key what stood there before.
pub lookup-set :
    (board : StatusBoard) (status : RegistrationStatus) (k : Text)
    → lookup (set board status) k ≡ (
        if text_eq (status.username ++ b'@' ∷ status.domain) k then some status else lookup board k)
unfolding set
lookup-set board status k = lookup-insert board (key_of status) status k

-- Sorted by username, each next to the following.
abbrev pub IsSorted : List RegistrationStatus → Type 0
IsSorted [] = Unit
IsSorted (x ∷ xs) = All (λ y. text_le x.username y.username ≡ true) xs × IsSorted xs

text_le-total : (s t : Text) → text_le s t ≡ false → text_le t s ≡ true
unfolding text_le
text_le-total [] t h = cc
text_le-total (c ∷ s) [] h = refl
text_le-total (c ∷ s) (d ∷ t) h = ground (arith, text_le-total s t)

text_le_trans : (s t u : Text) → text_le s t ≡ true → text_le t u ≡ true → text_le s u ≡ true
unfolding text_le
text_le_trans [] t u h k = refl
text_le_trans (c ∷ s) [] u h k = cc
text_le_trans (c ∷ s) (d ∷ t) [] h k = cc
text_le_trans (c ∷ s) (d ∷ t) (x ∷ u) h k = ground (arith, text_le_trans s t u)

abbrev pub count : (RegistrationStatus → Bool) → List RegistrationStatus → ℕ
count p [] = 0
count p (x ∷ xs) = (if p x then 1 else 0) + count p xs

count-insert_sorted :
    (p : RegistrationStatus → Bool) (x : RegistrationStatus) (xs : List RegistrationStatus)
    → count p (insert_sorted x xs) ≡ (if p x then 1 else 0) + count p xs
unfolding insert_sorted
count-insert_sorted p x [] = refl
count-insert_sorted p x (y ∷ ys) = ground (arith, count-insert_sorted p x ys)

All-insert_sorted :
    (s : Text) (x : RegistrationStatus) (xs : List RegistrationStatus)
    → text_le s x.username ≡ true
    → All (λ y. text_le s y.username ≡ true) xs
    → All (λ y. text_le s y.username ≡ true) (insert_sorted x xs)
unfolding insert_sorted
All-insert_sorted s x [] h k = (h, k)
All-insert_sorted s x (y ∷ ys) h k = elim (Bool-cases (text_le x.username y.username)) [
  | inl le ↦ rw le (h, k)
  | inr gt ↦ rw gt (k.0, All-insert_sorted s x ys h k.1)
]

All-text_le :
    (s t : Text) (xs : List RegistrationStatus)
    → text_le s t ≡ true
    → All (λ y. text_le t y.username ≡ true) xs
    → All (λ y. text_le s y.username ≡ true) xs
All-text_le s t [] h k = k
All-text_le s t (x ∷ xs) h k = (text_le_trans s t x.username h k.0, All-text_le s t xs h k.1)

insert_sorted-IsSorted :
    (x : RegistrationStatus) (xs : List RegistrationStatus)
    → IsSorted xs
    → IsSorted (insert_sorted x xs)
unfolding insert_sorted
insert_sorted-IsSorted x [] h = omega arith
insert_sorted-IsSorted x (y ∷ ys) h = elim (Bool-cases (text_le x.username y.username)) [
  | inl le ↦ rw le ((le, All-text_le x.username y.username ys le h.0), h)
  | inr gt ↦ rw gt (
    All-insert_sorted y.username x ys (text_le-total x.username y.username gt) h.0,
    insert_sorted-IsSorted x ys h.1,
  )
]

sort_by_username_lem :
    (xs : List RegistrationStatus)
    → IsSorted (sort_by_username xs)
      × ((p : RegistrationStatus → Bool) → count p (sort_by_username xs) ≡ count p xs)
unfolding sort_by_username
sort_by_username_lem [] = (omega arith, λ p. refl)
sort_by_username_lem (x ∷ xs) =
    let (sorted, same) = sort_by_username_lem xs in
    (
      insert_sorted-IsSorted x (sort_by_username xs) sorted,
      λ p. omega (arith, count-insert_sorted p x (sort_by_username xs), same p),
    )

-- A snapshot is sorted by username, and holds every status as often as the board does, whatever test
-- picks the statuses that are counted.
snapshot_lem :
    (board : StatusBoard) (p : RegistrationStatus → Bool)
    → IsSorted (snapshot board) × (count p (snapshot board) ≡ count p (map (λ e. e.1) board))
unfolding snapshot
snapshot_lem board p =
    let (sorted, same) = sort_by_username_lem (map (λ e. e.1) board) in (sorted, same p)
