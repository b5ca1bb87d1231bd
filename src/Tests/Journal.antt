-- ===== src/Tests/Journal.antt =====
-- The audit log as a file.
use nft_auth_whitelist.Prelude.{
  some, List, [], ◌∷◌, ◌++◌, ◌+◌, ◌≡◌, ◌≢◌, refl, subst, arith, All, length, true,
}
use nft_auth_whitelist.Text.{Text, text, split}
use nft_auth_whitelist.Audit.{fine, warn, str, auth_success, auth_fail}
use nft_auth_whitelist.Audit.Writer.{Encoder, Logger, Call, log_all}
use nft_auth_whitelist.Audit.Lines.{records, IsWhole, split-log_all}

-- A record is one letter, for the length of its action.
abbrev letter : Text → Text
letter action = (b'a' + length action) ∷ []

letter_one_line : (action b : Text) → some (letter action) ≡ some b → All (λ c. c ≢ b'\n') b
letter_one_line action b h =
    let same : letter action ≡ b = cc in
    let low : All (λ c. c ≢ b'\n') (letter action) = (omega arith, tt) in
    subst (All (λ c. c ≢ b'\n')) same low

abbrev encoder : Encoder
encoder = record {
  rfc3339 = λ t. text "2026-01-01T00:00:00Z";
  marshal = λ at action result detail. some (letter action);
  marshal-one_line = λ at action result detail b h. letter_one_line action b h;
}

abbrev calls : List Call
calls =
    record {
      now = 1000000000;
      event = record { action = auth_fail; level = warn; detail = [] };
      accepted = 2;
    }
    ∷ record {
      now = 2000000000;
      event = record {
        action = auth_success;
        level = fine;
        detail = (text "ip", str (text "a")) ∷ [];
      };
      accepted = 2;
    }
    ∷ []

abbrev opened : Logger
opened = record { closes = true; content = text "old\n" }

old_line : All (All (λ c. c ≢ b'\n')) (text "old" ∷ [])
old_line = ground arith

whole : All (IsWhole encoder) calls
whole = (omega arith, (omega arith, tt))

split-log_all_example :
    split b'\n' (log_all encoder calls opened).content
    ≡ (text "old" ∷ records encoder calls) ++ [] ∷ []
split-log_all_example = split-log_all encoder calls (text "old" ∷ []) opened old_line refl whole
