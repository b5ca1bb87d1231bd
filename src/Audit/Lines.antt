-- ===== src/Audit/Lines.antt =====
-- The audit log reads back, line by line, as the records that were written to it.
use mathlib.Core.List.{append-nil, append_assoc}
use nft_auth_whitelist.Prelude.{
  ℕ, Option, none, some, List, [], ◌∷◌, ◌++◌, ◌≡◌, ◌≢◌, ◌≤◌, refl, arith, All, All-append, length,
  ap, ◌∙◌,
}
use nft_auth_whitelist.Text.{Text, prefix-all, split}
use nft_auth_whitelist.Audit.Writer.{
  Encoder, Logger, Call, record_of, write_record, log_line, log_all,
}

abbrev IsLine : Text → Type 0
IsLine = All (λ c. c ≢ b'\n')

-- Each line ends with a line feed.
abbrev pub unlines : List Text → Text
unlines [] = []
unlines (x ∷ xs) = x ++ (b'\n' ∷ unlines xs)

unlines-append : (xs ys : List Text) → unlines (xs ++ ys) ≡ unlines xs ++ unlines ys
unlines-append [] ys = refl
unlines-append (x ∷ xs) ys =
    rw (unlines-append xs ys, append_assoc x (b'\n' ∷ unlines xs) (unlines ys)) refl

split-line : (b t : Text) → IsLine b → split b'\n' (b ++ (b'\n' ∷ t)) ≡ b ∷ split b'\n' t
unfolding split
split-line [] t h = refl
split-line (x ∷ b) t h = let e = split-line b t h.1 in let k = h.0 in ground (arith, e, k)

split-unlines : (xs : List Text) → All IsLine xs → split b'\n' (unlines xs) ≡ xs ++ [] ∷ []
unfolding split
split-unlines [] h = refl
split-unlines (x ∷ xs) h = split-line x (unlines xs) h.0 ∙ ap (λ t. x ∷ t) (split-unlines xs h.1)

module _ (enc : Encoder) where
  abbrev optional : Option Text → List Text
  optional none = []
  optional (some b) = b ∷ []

  -- The records of the calls that can be marshalled, in order.
  abbrev pub records : List Call → List Text
  records [] = []
  records (c ∷ cs) = optional (record_of enc c) ++ records cs

  -- The writer takes the whole record.
  abbrev pub IsWhole : Call → Type 0
  IsWhole c = length (unlines (optional (record_of enc c))) ≤ c.accepted

  write_record-unlines :
      (n : ℕ) (o : Option Text) (xs : List Text) (l : Logger)
      → l.content ≡ unlines xs
      → length (unlines (optional o)) ≤ n
      → (write_record enc n o l).content ≡ unlines (xs ++ optional o)
  unfolding write_record
  write_record-unlines n none xs l h k = rw (append-nil xs) h
  write_record-unlines n (some b) xs l h k = rw (h, prefix-all n _ k, unlines-append xs) refl

  log_all-unlines :
      (cs : List Call) (xs : List Text) (l : Logger)
      → l.content ≡ unlines xs
      → All IsWhole cs
      → (log_all enc cs l).content ≡ unlines (xs ++ records cs)
  unfolding log_all log_line
  log_all-unlines [] xs l h w = rw (append-nil xs) h
  log_all-unlines (c ∷ cs) xs l h w =
      log_all-unlines cs (xs ++ optional (record_of enc c)) _
        (write_record-unlines c.accepted (record_of enc c) xs l h w.0) w.1
      ∙ ap unlines (append_assoc xs (optional (record_of enc c)) (records cs))

  optional-IsLine : (c : Call) (o : Option Text) → record_of enc c ≡ o → All IsLine (optional o)
  optional-IsLine c none h = tt
  optional-IsLine c (some b) h = (enc.marshal-one_line _ _ _ _ b h, tt)

  records-IsLine : (cs : List Call) → All IsLine (records cs)
  records-IsLine [] = tt
  records-IsLine (c ∷ cs) =
      All-append IsLine (optional (record_of enc c)) (records cs) (optional-IsLine c _ refl)
        (records-IsLine cs)

  -- If the audit log consists of whole lines and the writer takes each record whole, then after any
  -- calls of Log the log splits into the lines it had and one line for each call whose record can
  -- be marshalled, in the order of the calls.
  pub split-log_all :
      (cs : List Call) (xs : List Text) (l : Logger)
      → All IsLine xs
      → l.content ≡ unlines xs
      → All IsWhole cs
      → split b'\n' (log_all enc cs l).content ≡ (xs ++ records cs) ++ [] ∷ []
  split-log_all cs xs l f h w =
      rw (log_all-unlines cs xs l h w)
        (split-unlines (xs ++ records cs) (All-append IsLine xs (records cs) f (records-IsLine cs)))
