-- ===== src/GoMap/Laws.antt =====
-- Laws of the map operations: lookup after a write and after a copy.
use go_advanced.Base.{
  String, ◌≡◌, refl, Option, none, some, [], ◌∷◌, arith, str_eq, str_eq_iff, str_eq_refl,
  if◌then◌else◌,
}
use go_advanced.GoMap.{GoMap, lookup, insert, get_or, copy, IsMap}

module _ {ℓ} {V : Type ℓ} where
  pub lookup-insert :
      (k j : String) (v : V) (m : GoMap V)
      → lookup j (insert k v m) ≡ (if str_eq k j then some v else lookup j m)
  unfolding lookup insert
  lookup-insert k j v [] = refl
  lookup-insert k j v ((i, w) ∷ m) =
      ground (arith, str_eq_iff k j, str_eq_iff i k, str_eq_iff i j, lookup-insert k j v m)

  pub lookup-insert_self : (k : String) (v : V) (m : GoMap V) → lookup k (insert k v m) ≡ some v
  lookup-insert_self k v m = simp (lookup-insert, str_eq_refl)

  pub get_or-insert_self : (d v : V) (k : String) (m : GoMap V) → get_or d k (insert k v m) ≡ v
  unfolding get_or
  get_or-insert_self d v k m = simp (lookup-insert, str_eq_refl)

  pub insert-IsMap : (k : String) (v : V) (m : GoMap V) → IsMap m → IsMap (insert k v m)
  unfolding lookup insert
  insert-IsMap k v [] h = (refl, tt)
  insert-IsMap k v ((i, w) ∷ m) h =
      ground (arith, insert-IsMap k v m h.1, lookup-insert k i v m, str_eq_iff i k, str_eq_iff k i)

  -- The entries of the copied map win.
  abbrev pub over : Option V → Option V → Option V
  over (some v) old = some v
  over none old = old

  pub lookup-copy :
      (j : String) (dst src : GoMap V)
      → IsMap src
      → lookup j (copy dst src) ≡ over (lookup j src) (lookup j dst)
  unfolding lookup copy
  lookup-copy j dst [] h = refl
  lookup-copy j dst ((k, v) ∷ src) h =
      ground (
        arith,
        lookup-copy j (insert k v dst) src h.1,
        lookup-insert k j v dst,
        str_eq_iff k j,
        h.0,
      )

  pub copy-IsMap : (dst src : GoMap V) → IsMap dst → IsMap (copy dst src)
  unfolding copy
  copy-IsMap dst [] h = h
  copy-IsMap dst ((k, v) ∷ src) h = copy-IsMap (insert k v dst) src (insert-IsMap k v dst h)

  -- A copy into an empty map looks up as the original does.
  pub lookup-copy_nil :
      (j : String) (src : GoMap V) → IsMap src → lookup j (copy [] src) ≡ lookup j src
  unfolding lookup
  lookup-copy_nil j src h = ground (arith, lookup-copy j [] src h)
