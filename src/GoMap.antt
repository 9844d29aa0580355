-- ===== src/GoMap.antt =====
-- Go's `map[string]V` as an association list in which the key that is found first counts. The
-- order of the list is the order in which `range` visits the entries, which Go leaves open.
pub mod Laws
use go_advanced.Base.{
  String, Bool, true, Option, none, some, List, [], ◌∷◌, ◌≡◌, foldl, map, str_eq, if◌then◌else◌,
}

abbrev pub GoMap {ℓ} : Type ℓ → Type ℓ
GoMap V = List (String × V)

module _ {ℓ} {V : Type ℓ} where
  -- `m[k]` with its `exists`
  unfoldable pub lookup : String → GoMap V → Option V
  lookup k [] = none
  lookup k ((j, v) ∷ m) = if str_eq j k then some v else lookup k m

  -- `m[k] = v`
  unfoldable pub insert : String → V → GoMap V → GoMap V
  insert k v [] = (k, v) ∷ []
  insert k v ((j, w) ∷ m) = if str_eq j k then (k, v) ∷ m else (j, w) ∷ insert k v m

  abbrev pub or_zero : V → Option V → V
  or_zero zero_value none = zero_value
  or_zero zero_value (some v) = v

  -- `m[k]`, the zero value where the key is missing
  unfoldable pub get_or : V → String → GoMap V → V
  get_or zero_value k m = or_zero zero_value (lookup k m)

  -- `for k, v := range src { dst[k] = v }`, and `maps.Copy(dst, src)`
  unfoldable pub copy : GoMap V → GoMap V → GoMap V
  copy dst [] = dst
  copy dst ((k, v) ∷ src) = copy (insert k v dst) src

  -- the keys, in the order of `range`
  abbrev pub keys : GoMap V → List String
  keys = map (λ e. e.0)

  -- No key stands twice, as in every map of Go.
  abbrev pub IsMap : GoMap V → Type ℓ
  IsMap [] = Unit
  IsMap ((k, v) ∷ m) = (lookup k m ≡ none) × IsMap m
