-- ===== src/Base/Dict.antt =====
-- `std::map` with numbers for keys, as the list of its entries in the order of the keys.
use Prim.Native.Nat.{ℕ}
use mathlib.Core.Path.{◌≡◌, refl}
use mathlib.Core.Bool.{Bool, true, false, not, ◌&&◌, ◌||◌}
use mathlib.Core.Option.{Option, none, some}
use mathlib.Core.List.{List, [], ◌∷◌}
use native.Mathlib.Omega.{arith}
use csed.Base.Tests.{◌==◌, ltb, if◌then◌else◌}

abbrev pub Dict {ℓ} : Type ℓ → Type ℓ
Dict A = List (ℕ × A)

module _ {ℓ} {A : Type ℓ} where
  -- `find`, and `count` where it is a test.
  abbrev pub find : ℕ → Dict A → Option A
  find k [] = none
  find k ((j, a) ∷ m) = if k == j then some a else find k m

  -- `m[k] = v`.
  abbrev pub put : ℕ → A → Dict A → Dict A
  put k v [] = (k, v) ∷ []
  put k v ((j, a) ∷ m) =
      let rest = put k v m in
      if k == j then (k, v) ∷ m else (if ltb k j then (k, v) ∷ (j, a) ∷ m else (j, a) ∷ rest)

  -- `erase` of a key.
  abbrev pub erase : ℕ → Dict A → Dict A
  erase k [] = []
  erase k ((j, a) ∷ m) = let rest = erase k m in if k == j then rest else (j, a) ∷ rest

  pub find-put_self : (k : ℕ) (v : A) (m : Dict A) → find k (put k v m) ≡ some v
  find-put_self k v [] = ground arith
  find-put_self k v ((j, a) ∷ m) = ground (arith, find-put_self k v m)

  pub find-put_ne :
      (i k : ℕ) (v : A) (m : Dict A) → (i == k) ≡ false → find i (put k v m) ≡ find i m
  find-put_ne i k v [] h = ground (arith, h)
  find-put_ne i k v ((j, a) ∷ m) h = ground (arith, h, find-put_ne i k v m h)

  pub find-erase_self : (k : ℕ) (m : Dict A) → find k (erase k m) ≡ none
  find-erase_self k [] = refl
  find-erase_self k ((j, a) ∷ m) = ground (arith, find-erase_self k m)

  pub find-erase_ne : (i k : ℕ) (m : Dict A) → (i == k) ≡ false → find i (erase k m) ≡ find i m
  find-erase_ne i k [] h = refl
  find-erase_ne i k ((j, a) ∷ m) h = ground (arith, h, find-erase_ne i k m h)

  pub put-put_self : (k : ℕ) (u v : A) (m : Dict A) → put k v (put k u m) ≡ put k v m
  put-put_self k u v [] = ground arith
  put-put_self k u v ((j, a) ∷ m) = ground (arith, put-put_self k u v m)

  -- Whether there is a value.
  abbrev pub known : Option A → Bool
  known none = false
  known (some a) = true

  pub known-put :
      (i k : ℕ) (v : A) (m : Dict A) → known (find i (put k v m)) ≡ ((i == k) || known (find i m))
  known-put i k v [] = ground arith
  known-put i k v ((j, a) ∷ m) = ground (arith, known-put i k v m)

  pub known-erase :
      (i k : ℕ) (m : Dict A) → known (find i (erase k m)) ≡ (not (i == k) && known (find i m))
  known-erase i k [] = ground arith
  known-erase i k ((j, a) ∷ m) = ground (arith, known-erase i k m)
