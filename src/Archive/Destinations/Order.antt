-- ===== src/Archive/Destinations/Order.antt =====
-- strcmp is a total order, and the sort of zupt_validate_archive_destinations puts the keys into it.
use libvuptsdk.Common.{ℕ, ◌≡◌, refl, arith, List, [], ◌∷◌, true, false, Bool-cases, inl, inr, All}
use libvuptsdk.Archive.Destinations.{strcmp, is_gt, is_eq, insert_key, sort_keys}

abbrev pub Le : List ℕ → List ℕ → Type 0
Le a b = is_gt (strcmp a b) ≡ false

pub strcmp-eq : (a b : List ℕ) → is_eq (strcmp a b) ≡ true → a ≡ b
unfolding strcmp
strcmp-eq [] [] e = refl
strcmp-eq [] (y ∷ b) e = cc
strcmp-eq (x ∷ a) [] e = cc
strcmp-eq (x ∷ a) (y ∷ b) e = ground (arith, strcmp-eq a b)

pub strcmp_self : (a : List ℕ) → is_eq (strcmp a a) ≡ true
unfolding strcmp
strcmp_self [] = refl
strcmp_self (x ∷ a) = ground (arith, strcmp_self a)

pub Le-total : (a b : List ℕ) → is_gt (strcmp a b) ≡ true → Le b a
unfolding strcmp
Le-total [] [] e = refl
Le-total [] (y ∷ b) e = cc
Le-total (x ∷ a) [] e = refl
Le-total (x ∷ a) (y ∷ b) e = ground (arith, Le-total a b)

pub Le-trans : (a b c : List ℕ) → Le a b → Le b c → Le a c
unfolding strcmp
Le-trans [] b [] h k = refl
Le-trans [] b (z ∷ c) h k = refl
Le-trans (x ∷ a) [] c h k = cc
Le-trans (x ∷ a) (y ∷ b) [] h k = cc
Le-trans (x ∷ a) (y ∷ b) (z ∷ c) h k = ground (arith, Le-trans a b c)

pub Le_antisym : (a b : List ℕ) → Le a b → Le b a → a ≡ b
unfolding strcmp
Le_antisym [] [] h k = refl
Le_antisym [] (y ∷ b) h k = cc
Le_antisym (x ∷ a) [] h k = cc
Le_antisym (x ∷ a) (y ∷ b) h k = ground (arith, Le_antisym a b)

abbrev pub IsSorted : List (List ℕ) → Type 0
IsSorted [] = Unit {0}
IsSorted (k ∷ keys) = All (Le k) keys × IsSorted keys

All-insert_key :
    (P : List ℕ → Type 0) (key : List ℕ) (keys : List (List ℕ))
    → P key
    → All P keys
    → All P (insert_key key keys)
unfolding insert_key
All-insert_key P key [] h hs = (h, tt)
All-insert_key P key (k ∷ keys) h (hk, hs) = elim (Bool-cases (is_gt (strcmp key k))) [
  | inl later ↦ rw later (hk, All-insert_key P key keys h hs)
  | inr here ↦ rw here (h, (hk, hs))
]

All-Le : (a b : List ℕ) (keys : List (List ℕ)) → Le a b → All (Le b) keys → All (Le a) keys
All-Le a b [] h hs = tt
All-Le a b (k ∷ keys) h (hk, hs) = (Le-trans a b k h hk, All-Le a b keys h hs)

insert_key-IsSorted :
    (key : List ℕ) (keys : List (List ℕ)) → IsSorted keys → IsSorted (insert_key key keys)
unfolding insert_key
insert_key-IsSorted key [] s = (tt, tt)
insert_key-IsSorted key (k ∷ keys) (low, s) = elim (Bool-cases (is_gt (strcmp key k))) [
  | inl later ↦
      rw later
        (All-insert_key (Le k) key keys (Le-total key k later) low, insert_key-IsSorted key keys s)
  | inr here ↦ rw here ((here, All-Le key k keys here low), (low, s))
]

-- The sorted keys are in order.
pub sort_keys-IsSorted : (keys : List (List ℕ)) → IsSorted (sort_keys keys)
unfolding sort_keys
sort_keys-IsSorted [] = tt
sort_keys-IsSorted (key ∷ keys) = insert_key-IsSorted key (sort_keys keys) (sort_keys-IsSorted keys)
