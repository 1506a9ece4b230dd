-- ===== src/Prelude/Lists.antt =====
-- Lists measured by native numbers, vectors of pointers, and `std::map` as an association list.
use Prim.Native.Nat.{ℕ, zero, suc, ◌+◌}
use mathlib.Core.Path.{◌≡◌, refl}
use mathlib.Core.Bool.{Bool, true, false, ◌||◌}
use mathlib.Core.List.{List, [], ◌∷◌, ◌++◌}
use mathlib.Core.Option.{Option, none, some}
use native.Mathlib.Omega.{arith}
use transport_cpp.Prelude.Tests.{◌==◌, if◌then◌else◌, is_some}

module _ {ℓ} {A : Type ℓ} where
  abbrev pub length : List A → ℕ
  length [] = 0
  length (x ∷ xs) = suc (length xs)

  abbrev pub get_elem? : List A → ℕ → Option A
  get_elem? [] i = none
  get_elem? (x ∷ xs) zero = some x
  get_elem? (x ∷ xs) (suc i) = get_elem? xs i

  pub length-append : (xs ys : List A) → length (xs ++ ys) ≡ length xs + length ys
  length-append [] ys = omega arith
  length-append (x ∷ xs) ys = omega (arith, length-append xs ys)

  -- What `map::find` sees; `lookup k m` of the library wants a `Discrete` key.
  abbrev pub lookup : ℕ → List (ℕ × A) → Option A
  lookup k [] = none
  lookup k ((j, v) ∷ m) = if j == k then some v else lookup k m

  abbrev pub has_key : ℕ → List (ℕ × A) → Bool
  has_key k m = is_some (lookup k m)

  abbrev append_pair : ℕ → A → List (ℕ × A) → List (ℕ × A)
  append_pair k v [] = (k, v) ∷ []
  append_pair k v (e ∷ m) = e ∷ append_pair k v m

  -- `map.insert({k, v})`: a key that is present keeps its value.
  abbrev pub insert : ℕ → A → List (ℕ × A) → List (ℕ × A)
  insert k v m = if has_key k m then m else append_pair k v m

  -- `map.erase(k)`
  abbrev pub erase_key : ℕ → List (ℕ × A) → List (ℕ × A)
  erase_key k [] = []
  erase_key k ((j, v) ∷ m) = if j == k then erase_key k m else (j, v) ∷ erase_key k m

  lookup-append_pair :
      (j k : ℕ) (v : A) (m : List (ℕ × A))
      → lookup k m ≡ none
      → lookup j (append_pair k v m) ≡ (if k == j then some v else lookup j m)
  lookup-append_pair j k v [] h = refl
  lookup-append_pair j k v ((i, u) ∷ m) h = ground (arith, lookup-append_pair j k v m)

  pub lookup-insert :
      (j k : ℕ) (v : A) (m : List (ℕ × A))
      → lookup k m ≡ none
      → lookup j (insert k v m) ≡ (if k == j then some v else lookup j m)
  lookup-insert j k v m h = rw h (lookup-append_pair j k v m h)

  has_key-append_pair :
      (j k : ℕ) (v : A) (m : List (ℕ × A))
      → has_key j (append_pair k v m) ≡ (if k == j then true else has_key j m)
  has_key-append_pair j k v [] = ground arith
  has_key-append_pair j k v ((i, u) ∷ m) = ground (arith, has_key-append_pair j k v m)

  pub has_key-insert :
      (j k : ℕ) (v : A) (m : List (ℕ × A))
      → has_key j (insert k v m) ≡ (if k == j then true else has_key j m)
  has_key-insert j k v m = ground (arith, has_key-append_pair j k v m)

  pub lookup-erase_key :
      (j k : ℕ) (m : List (ℕ × A))
      → lookup j (erase_key k m) ≡ (if k == j then none else lookup j m)
  lookup-erase_key j k [] = ground arith
  lookup-erase_key j k ((i, u) ∷ m) = ground (arith, lookup-erase_key j k m)

  pub has_key-erase_key :
      (j k : ℕ) (m : List (ℕ × A))
      → has_key j (erase_key k m) ≡ (if k == j then false else has_key j m)
  has_key-erase_key j k m = ground (arith, lookup-erase_key j k m)

  pub lookup-eq-none : (k : ℕ) (m : List (ℕ × A)) → has_key k m ≡ false → lookup k m ≡ none
  lookup-eq-none k m h = ground arith

-- `std::find` over a vector of pointers.
abbrev pub mem : ℕ → List ℕ → Bool
mem d [] = false
mem d (x ∷ xs) = (x == d) || mem d xs

-- `v.erase(std::find(v.begin(), v.end(), d))` where `d` is found, nothing where it is not.
abbrev pub erase_first : ℕ → List ℕ → List ℕ
erase_first d [] = []
erase_first d (x ∷ xs) = if x == d then xs else x ∷ erase_first d xs

-- No pointer stands twice in the vector.
abbrev pub IsDistinct : List ℕ → Type 0
IsDistinct [] = Unit {0}
IsDistinct (x ∷ xs) = (mem x xs ≡ false) × IsDistinct xs

pub mem-append : (d : ℕ) (xs ys : List ℕ) → mem d (xs ++ ys) ≡ (mem d xs || mem d ys)
mem-append d [] ys = refl
mem-append d (x ∷ xs) ys = ground (arith, mem-append d xs ys)

pub IsDistinct-append :
    (d : ℕ) (xs : List ℕ) → IsDistinct xs → mem d xs ≡ false → IsDistinct (xs ++ d ∷ [])
IsDistinct-append d [] h n = (refl, tt)
IsDistinct-append d (x ∷ xs) h n =
    ground (arith, mem-append x xs (d ∷ []), IsDistinct-append d xs h.1)

pub mem-erase_first :
    (j d : ℕ) (xs : List ℕ)
    → IsDistinct xs
    → mem j (erase_first d xs) ≡ (if d == j then false else mem j xs)
mem-erase_first j d [] h = ground arith
mem-erase_first j d (x ∷ xs) h = ground (arith, mem-erase_first j d xs h.1)

pub erase_first-IsDistinct : (d : ℕ) (xs : List ℕ) → IsDistinct xs → IsDistinct (erase_first d xs)
erase_first-IsDistinct d [] h = tt
erase_first-IsDistinct d (x ∷ xs) h =
    ground (arith, mem-erase_first x d xs h.1, erase_first-IsDistinct d xs h.1)

pub erase_first_absent : (d : ℕ) (xs : List ℕ) → mem d xs ≡ false → erase_first d xs ≡ xs
erase_first_absent d [] h = refl
erase_first_absent d (x ∷ xs) h = ground (arith, erase_first_absent d xs)
