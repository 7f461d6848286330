-- ===== src/Prelude/Dict.antt =====
-- Python's `dict` with integer keys, as an association list in insertion order.
use Prim.Native.Nat.{ℕ}
use mathlib.Core.Path.{◌≡◌, refl}
use mathlib.Core.Bool.{Bool, false, ◌||◌}
use mathlib.Core.List.{List, [], ◌∷◌}
use mathlib.Core.Option
use mathlib.Core.Option.{Option, none, some}
use native.Mathlib.Omega.{arith}
use yandex_codeforces_analyz.Prelude.Tests.{◌==◌, if◌then◌else◌, or_else}

abbrev pub keys {ℓ} : {V : Type ℓ} → List (ℕ × V) → List ℕ
keys [] = []
keys ((k, v) ∷ m) = k ∷ keys m

abbrev pub values {ℓ} : {V : Type ℓ} → List (ℕ × V) → List V
values [] = []
values ((k, v) ∷ m) = v ∷ values m

module _ {ℓ} {V : Type ℓ} where
  -- `m.get(k)`
  unfoldable pub get_key : ℕ → List (ℕ × V) → Option V
  get_key k [] = none
  get_key k ((j, v) ∷ m) = let rest = get_key k m in if j == k then some v else rest

  -- `k in m`
  unfoldable pub has_key : ℕ → List (ℕ × V) → Bool
  has_key k [] = false
  has_key k ((j, v) ∷ m) = (j == k) || has_key k m

  -- `m[k] = v`
  unfoldable pub put_key : ℕ → V → List (ℕ × V) → List (ℕ × V)
  put_key k v [] = (k, v) ∷ []
  put_key k v ((j, w) ∷ m) =
      let rest = put_key k v m in if j == k then (j, v) ∷ m else (j, w) ∷ rest

  -- the object under `k`, if there is one, is changed in place
  unfoldable pub modify : ℕ → (V → V) → List (ℕ × V) → List (ℕ × V)
  modify k f [] = []
  modify k f ((j, v) ∷ m) =
      let rest = modify k f m in if j == k then (j, f v) ∷ m else (j, v) ∷ rest

  -- `m.setdefault(k, v)`, for its effect on `m`
  unfoldable pub set_default : ℕ → V → List (ℕ × V) → List (ℕ × V)
  set_default k v [] = (k, v) ∷ []
  set_default k v ((j, w) ∷ m) =
      let rest = set_default k v m in if j == k then (j, w) ∷ m else (j, w) ∷ rest

  pub get_key-put_key :
      (j k : ℕ) (v : V) (m : List (ℕ × V))
      → get_key j (put_key k v m) ≡ (if k == j then some v else get_key j m)
  unfolding get_key put_key
  get_key-put_key j k v [] = refl
  get_key-put_key j k v ((i, w) ∷ m) = ground (arith, get_key-put_key j k v m)

  pub get_key-modify :
      (j k : ℕ) (f : V → V) (m : List (ℕ × V))
      → get_key j (modify k f m) ≡ (if k == j then Option.map f (get_key j m) else get_key j m)
  unfolding get_key modify
  get_key-modify j k f [] = ground arith
  get_key-modify j k f ((i, w) ∷ m) = ground (arith, get_key-modify j k f m)

  pub modified :
      (k : ℕ) (f : V → V) (m : List (ℕ × V)) (v : V)
      → get_key k m ≡ some v
      → get_key k (modify k f m) ≡ some (f v)
  modified k f m v h = ground (arith, get_key-modify k k f m)

  pub get_key-set_default :
      (j k : ℕ) (v : V) (m : List (ℕ × V))
      → get_key j (set_default k v m)
        ≡ (if k == j then some (or_else (get_key j m) v) else get_key j m)
  unfolding get_key set_default
  get_key-set_default j k v [] = ground arith
  get_key-set_default j k v ((i, w) ∷ m) = ground (arith, get_key-set_default j k v m)

  pub keys-modify : (k : ℕ) (f : V → V) (m : List (ℕ × V)) → keys (modify k f m) ≡ keys m
  unfolding modify
  keys-modify k f [] = refl
  keys-modify k f ((i, w) ∷ m) = ground (arith, keys-modify k f m)

  pub get_key_missing : (k : ℕ) (m : List (ℕ × V)) → has_key k m ≡ false → get_key k m ≡ none
  unfolding get_key has_key
  get_key_missing k [] h = refl
  get_key_missing k ((i, w) ∷ m) h = ground (arith, get_key_missing k m)

pub ruleset dict_laws = (get_key-put_key, get_key-modify, get_key-set_default, keys-modify)
