-- ===== src/Receive/Limits.antt =====
-- The bound on the input.
use nft_auth_whitelist.Prelude.{
  ℕ, suc, zero, ◌+◌, ◌≤◌, ◌<◌, [], ◌∷◌, ◌≡◌, refl, ap, ◌∙◌, arith, ltb, length, if◌then◌else◌,
}
use nft_auth_whitelist.Prelude.Int.{pos, ◌+ℤ◌, wrap, wrap-pos, half_word}
use nft_auth_whitelist.Text.{Text, prefix}
use nft_auth_whitelist.Receive.Defs.{
  Stdin, ReadResult, ReceiveError, data_, failed, read_all, check_length, read_limited,
}

length-prefix : (n : ℕ) (s : Text) → n ≤ length s → length (prefix n s) ≡ n
unfolding prefix
length-prefix zero s h = refl
length-prefix (suc n) [] h = ground arith
length-prefix (suc n) (x ∷ s) h = ground (arith, length-prefix n s)

-- What a bounded reading promises.
abbrev pub bounded_read : Stdin → ℕ → ReadResult
bounded_read s max =
    if ltb max (length s.bytes)
    then failed ReceiveError.too_long
    else if s.fails
    then failed ReceiveError.read_failed
    else data_ s.bytes

one_more : (max : ℕ) → suc max < half_word → pos max +ℤ pos 1 ≡ pos (suc max)
unfolding ◌+ℤ◌
one_more max h = wrap-pos (max + 1) (omega arith) ∙ ap pos (omega arith)

-- For a limit below 2^63 - 1, readLimited refuses an input that is longer than the limit, reports
-- the failure of a reader that fails within the limit, and returns the whole input otherwise.
pub read_limited-bounded :
    (s : Stdin) (max : ℕ) → suc max < half_word → read_limited s (pos max) ≡ bounded_read s max
unfolding read_limited read_all check_length
read_limited-bounded s max h =
    rw (read_limited, one_more max h) (ground (arith, length-prefix (suc max) s.bytes))

-- With the limit 2^63 - 1 readLimited returns nothing, whatever the input.
pub read_limited_largest : (s : Stdin) → read_limited s (pos 9223372036854775807) ≡ data_ []
unfolding read_limited read_all check_length ◌+ℤ◌ wrap
read_limited_largest s = refl
