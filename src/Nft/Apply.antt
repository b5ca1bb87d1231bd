-- ===== src/Nft/Apply.antt =====
-- Apply: nft checks the script, and loads it only then. What nft answers is the system's part, and
-- the scripts that it loaded, newest first, stand for the rules in force.
use nft_auth_whitelist.Prelude.{
  ◌≡◌, ◌⊎◌, inl, inr, Bool-cases, Option, none, some, List, ◌∷◌, Bool, if◌then◌else◌,
}
use nft_auth_whitelist.Text.{Text}

pub record Answers : Type 0 where
  pub found : Bool
  pub check_ok : Bool
  pub load_ok : Bool

pub data ApplyError : Type 0 where
  not_found check_failed load_failed : ApplyError

unfoldable pub apply : Answers → Text → List Text → Option ApplyError × List Text
apply nft script loaded =
    if nft.found
    then (if nft.check_ok
        then (if nft.load_ok
            then (none, script ∷ loaded)
            else (some ApplyError.load_failed, loaded))
        else (some ApplyError.check_failed, loaded))
    else (some ApplyError.not_found, loaded)

-- The script is in force and there is no error, or there is an error and nothing changed.
pub apply_cases :
    (nft : Answers) (script : Text) (loaded : List Text)
    → (apply nft script loaded ≡ (none, script ∷ loaded))
      ⊎ ((e : ApplyError) × (apply nft script loaded ≡ (some e, loaded)))
unfolding apply
apply_cases nft script loaded = elim (Bool-cases nft.found) [
  | inr f ↦ inr (ApplyError.not_found, rw f)
  | inl f ↦ elim (Bool-cases nft.check_ok) [
    | inr c ↦ inr (ApplyError.check_failed, rw (f, c))
    | inl c ↦ elim (Bool-cases nft.load_ok) [
      | inr l ↦ inr (ApplyError.load_failed, rw (f, c, l))
      | inl l ↦ inl (rw (f, c, l))
    ]
  ]
]
