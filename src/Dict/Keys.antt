-- ===== src/Dict/Keys.antt =====
-- The key view of a dict: what each operation does to it, and that no key stands twice.
use ai_enterprise_os.Prelude.{
  String, ◌≡◌, refl, false, [], ◌∷◌, ◌++◌, arith, ◌==◌, eq_iff, if◌then◌else◌, elem, IsDistinct,
  IsDistinct-snoc,
}
use ai_enterprise_os.Dict.{Dict, has, insert, erase, keys}

module _ {ℓ} {V : Type ℓ} where
  pub elem-keys : (k : String) (d : Dict V) → elem k (keys d) ≡ has k d
  unfolding has
  elem-keys k [] = refl
  elem-keys k ((j, v) ∷ d) = rw (elem-keys k d)

  pub keys-insert :
      (k : String) (v : V) (d : Dict V)
      → keys (insert k v d) ≡ (if has k d then keys d else keys d ++ k ∷ [])
  unfolding has insert
  keys-insert k v [] = refl
  keys-insert k v ((j, w) ∷ d) = ground (arith, eq_iff j k, keys-insert k v d)

  pub IsDistinct-insert :
      (k : String) (v : V) (d : Dict V) → IsDistinct (keys d) → IsDistinct (keys (insert k v d))
  IsDistinct-insert k v d h =
      rw (keys-insert k v d) (ground (arith, IsDistinct-snoc k (keys d) h, elem-keys k d))

  pub elem-keys-erase :
      (k j : String) (d : Dict V)
      → elem j (keys (erase k d)) ≡ (if k == j then false else elem j (keys d))
  unfolding erase
  elem-keys-erase k j [] = ground arith
  elem-keys-erase k j ((i, w) ∷ d) =
      ground (arith, elem-keys-erase k j d, eq_iff k j, eq_iff i k, eq_iff i j)

  pub IsDistinct-erase :
      (k : String) (d : Dict V) → IsDistinct (keys d) → IsDistinct (keys (erase k d))
  unfolding erase
  IsDistinct-erase k [] h = tt
  IsDistinct-erase k ((j, v) ∷ d) h =
      ground (arith, IsDistinct-erase k d h.1, elem-keys-erase k j d)
