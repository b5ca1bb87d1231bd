-- ===== src/Dict/Defs.antt =====
-- Lookup, assignment and `delete` on a map with string keys.
use nft_auth_whitelist.Prelude.{
  Option, none, some, List, [], ◌∷◌, ◌≡◌, false, map, if◌then◌else◌, All,
}
use nft_auth_whitelist.Text.{Text, text_eq}

abbrev pub Dict {ℓ} : Type ℓ → Type ℓ
Dict V = List (Text × V)

module _ {ℓ} {V : Type ℓ} where
  abbrev pub keys : Dict V → List Text
  keys = map (λ e. e.0)

  unfoldable pub find : Text → Dict V → Option V
  find k [] = none
  find k ((j, v) ∷ m) = if text_eq j k then some v else find k m

  unfoldable pub put : Text → V → Dict V → Dict V
  put k v [] = (k, v) ∷ []
  put k v ((j, w) ∷ m) = if text_eq j k then (j, v) ∷ m else (j, w) ∷ put k v m

  unfoldable pub delete : Text → Dict V → Dict V
  delete k [] = []
  delete k ((j, v) ∷ m) = if text_eq j k then delete k m else (j, v) ∷ delete k m

  abbrev pub HasDistinctKeys : Dict V → Type ℓ
  HasDistinctKeys [] = Unit
  HasDistinctKeys ((k, v) ∷ m) = All (λ e. text_eq k e.0 ≡ false) m × HasDistinctKeys m

  -- The pairs of the first map are looked up in the second.
  abbrev pub IsKnown : Dict V → Dict V → Type ℓ
  IsKnown xs m = All (λ e. find e.0 m ≡ some e.1) xs
