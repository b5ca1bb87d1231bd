-- ===== src/Server/Markup.antt =====
-- What a page shows of a client, of a receiver or of ssh cannot add markup to it.
use nft_auth_whitelist.Prelude.{
  ℕ, suc, if◌then◌else◌, ◌≤◌, ◌≡◌, refl, sym, ap, ◌∙◌, List, [], ◌∷◌, ◌++◌, Bool, true, false, inl,
  inr, arith, All, Bool-cases,
}
use nft_auth_whitelist.Prelude.Int.{ℤ, pos, negsuc}
use nft_auth_whitelist.Text.{Text, text, itoa, itoa-IsDigit}
use nft_auth_whitelist.Nft.{decimal}
use nft_auth_whitelist.Clock.{Time}
use nft_auth_whitelist.Net.Ip.{AddressSyntax, Ip}
use nft_auth_whitelist.Signer.{Entry}
use nft_auth_whitelist.SshPush.{PushResult}
use nft_auth_whitelist.Server.Defs.{ServerConfig, Request}
use nft_auth_whitelist.Server.Html.{escape_byte, escape_string, concat, markup, utf8}
use nft_auth_whitelist.Server.Pages.{
  Formats, Scope, row, code_of, with_detail, detail_of, line_pieces, push_line, push_lines,
  push_list, render_push_section, root_scope, root_pieces, form_pieces, render_root, form_scope,
  render_auth_form,
}

abbrev pub has_none : Text → Bool
has_none [] = true
has_none (c ∷ s) = false

-- Two texts with the same markup.
abbrev Alike : Text → Text → Type 0
Alike s t = markup s ≡ markup t

markup-append : (s t : Text) → markup (s ++ t) ≡ markup s ++ markup t
unfolding markup
markup-append [] t = refl
markup-append (c ∷ s) t = ground (arith, markup-append s t)

append-Alike : (s t s' t' : Text) → Alike s s' → Alike t t' → Alike (s ++ t) (s' ++ t')
append-Alike s t s' t' h k = markup-append s t ∙ rw (h, k) (sym (markup-append s' t'))

markup-escape_byte : (c : ℕ) → markup (escape_byte c) ≡ []
unfolding markup escape_byte
markup-escape_byte c = ground arith

markup-escape_string : (s : Text) → markup (escape_string s) ≡ []
unfolding escape_string markup
markup-escape_string [] = refl
markup-escape_string (c ∷ s) =
    markup-append (escape_byte c) (escape_string s)
    ∙ rw (markup-escape_byte c, markup-escape_string s)

escaped-Alike : (s t : Text) → Alike (escape_string s) (escape_string t)
escaped-Alike s t = markup-escape_string s ∙ sym (markup-escape_string t)

-- Pieces that are alike one by one.
abbrev AllAlike : List Text → List Text → Type 0
AllAlike [] [] = Unit
AllAlike [] (t ∷ ts) = ⊥
AllAlike (s ∷ ss) [] = ⊥
AllAlike (s ∷ ss) (t ∷ ts) = Alike s t × AllAlike ss ts

-- One piece and the others.
infixr 2 ◌▸◌
abbrev ◌▸◌ : {A B : Type 0} → A → B → A × B
a ▸ b = (a, b)

concat-Alike : (ss ts : List Text) → AllAlike ss ts → Alike (concat ss) (concat ts)
concat-Alike [] [] h = refl
concat-Alike [] (t ∷ ts) h = absurd h
concat-Alike (s ∷ ss) [] h = absurd h
concat-Alike (s ∷ ss) (t ∷ ts) h =
    append-Alike s (concat ss) t (concat ts) h.0 (concat-Alike ss ts h.1)

markup-digits : (s : Text) → All (λ c. (b'0' ≤ c) × (c ≤ b'9')) s → markup s ≡ []
unfolding markup
markup-digits [] h = refl
markup-digits (c ∷ s) h = ground (arith, markup-digits s h.1)

markup-decimal : (n : ℤ) → markup (decimal n) ≡ []
unfolding markup decimal
markup-decimal (pos n) = markup-digits (itoa n) (itoa-IsDigit n)
markup-decimal (negsuc n) = markup-digits (itoa (suc n)) (itoa-IsDigit (suc n))

decimal-Alike : (m n : ℤ) → Alike (decimal m) (decimal n)
decimal-Alike m n = markup-decimal m ∙ sym (markup-decimal n)

code-Alike : (s t : Text) → Alike s t → Alike (code_of s) (code_of t)
code-Alike s t h =
    concat-Alike (text "<code>" ∷ s ∷ text "</code>" ∷ []) (text "<code>" ∷ t ∷ text "</code>" ∷ [])
      (refl ▸ h ▸ refl ▸ tt)

row-Alike : (name s t : Text) → Alike s t → Alike (row name s) (row name t)
row-Alike name s t h =
    concat-Alike (text "<tr><td>" ∷ name ∷ text "</td><td>" ∷ s ∷ text "</td></tr>\n" ∷ [])
      (text "<tr><td>" ∷ name ∷ text "</td><td>" ∷ t ∷ text "</td></tr>\n" ∷ [])
      (refl ▸ refl ▸ refl ▸ h ▸ refl ▸ tt)

module _ (syn : AddressSyntax) (f : Formats) (cfg : ServerConfig) where
  -- Results in the same number, each with a detail where the other has one.
  abbrev pub HaveShape : List PushResult → List PushResult → Type 0
  HaveShape [] [] = Unit
  HaveShape [] (q ∷ qs) = ⊥
  HaveShape (r ∷ rs) [] = ⊥
  HaveShape (r ∷ rs) (q ∷ qs) =
      (has_none (detail_of syn f cfg r) ≡ has_none (detail_of syn f cfg q)) × HaveShape rs qs

  detail-Alike :
      (s t : Text)
      → has_none s ≡ has_none t
      → Alike (with_detail syn f cfg s) (with_detail syn f cfg t)
  detail-Alike [] [] h = refl
  detail-Alike [] (c ∷ t) h = absurd (cc)
  detail-Alike (c ∷ s) [] h = absurd (cc)
  detail-Alike (c ∷ s) (d ∷ t) h =
      concat-Alike (utf8 " — " ∷ code_of (escape_string (c ∷ s)) ∷ [])
        (utf8 " — " ∷ code_of (escape_string (d ∷ t)) ∷ [])
        (refl ▸ code-Alike _ _ (escaped-Alike (c ∷ s) (d ∷ t)) ▸ tt)

  outcome-Alike :
      (a b : Bool)
      → Alike (if a then text "ok" else text "failed") (if b then text "ok" else text "failed")
  unfolding markup
  outcome-Alike true true = refl
  outcome-Alike true false = refl
  outcome-Alike false true = refl
  outcome-Alike false false = refl

  line-Alike :
      (r q : PushResult)
      → has_none (detail_of syn f cfg r) ≡ has_none (detail_of syn f cfg q)
      → Alike (push_line syn f cfg r) (push_line syn f cfg q)
  unfolding push_line
  line-Alike r q h = concat-Alike (line_pieces syn f cfg r) (line_pieces syn f cfg q) (
      refl
      ▸ escaped-Alike r.name q.name
      ▸ refl
      ▸ outcome-Alike r.ok q.ok
      ▸ refl
      ▸ decimal-Alike r.duration_ms q.duration_ms
      ▸ refl
      ▸ detail-Alike _ _ h
      ▸ refl
      ▸ tt)

  lines-Alike :
      (rs qs : List PushResult)
      → HaveShape rs qs
      → Alike (push_lines syn f cfg rs) (push_lines syn f cfg qs)
  unfolding push_lines
  lines-Alike [] [] h = refl
  lines-Alike [] (q ∷ qs) h = absurd h
  lines-Alike (r ∷ rs) [] h = absurd h
  lines-Alike (r ∷ rs) (q ∷ qs) h =
      append-Alike (push_line syn f cfg r) (push_lines syn f cfg rs) (push_line syn f cfg q)
        (push_lines syn f cfg qs) (line-Alike r q h.0) (lines-Alike rs qs h.1)

  list-Alike :
      (rs qs : List PushResult)
      → HaveShape rs qs
      → Alike (push_list syn f cfg rs) (push_list syn f cfg qs)
  list-Alike [] [] h = refl
  list-Alike [] (q ∷ qs) h = absurd h
  list-Alike (r ∷ rs) [] h = absurd h
  list-Alike (r ∷ rs) (q ∷ qs) h =
      concat-Alike (text "<ul>" ∷ push_lines syn f cfg (r ∷ rs) ∷ text "</ul>" ∷ [])
        (text "<ul>" ∷ push_lines syn f cfg (q ∷ qs) ∷ text "</ul>" ∷ [])
        (refl ▸ lines-Alike (r ∷ rs) (q ∷ qs) h ▸ refl ▸ tt)

  section-Alike :
      (rs qs : List PushResult)
      → HaveShape rs qs
      → Alike (render_push_section syn f cfg rs) (render_push_section syn f cfg qs)
  unfolding render_push_section
  section-Alike rs qs h = elim (Bool-cases cfg.push.enabled) [
    | inr e ↦ simp (render_push_section, e)
    | inl e ↦
        simp (render_push_section, e)
          (append-Alike (text "<h2>Push results</h2>") _ (text "<h2>Push results</h2>") _ refl
            (list-Alike rs qs h))
  ]

  rfc3339-Alike : (t u : Time) → Alike (f.rfc3339 t) (f.rfc3339 u)
  rfc3339-Alike t u = f.rfc3339_plain t ∙ sym (f.rfc3339_plain u)

  root-Alike :
      (scope : Scope) (e e' : Entry) (rs qs : List PushResult)
      → HaveShape rs qs
      → Alike
          (concat (root_pieces syn f cfg e rs scope))
          (concat (root_pieces syn f cfg e' qs scope))
  root-Alike scope e e' rs qs h =
      concat-Alike (root_pieces syn f cfg e rs scope) (root_pieces syn f cfg e' qs scope) (
        refl
        ▸ refl
        ▸ refl
        ▸ refl
        ▸ refl
        ▸ row-Alike (utf8 "记录 IP") _ _ (code-Alike _ _ (escaped-Alike e.ip e'.ip))
        ▸ row-Alike (utf8 "记录 CIDR") _ _ (code-Alike _ _ (escaped-Alike e.cidr e'.cidr))
        ▸ refl
        ▸ row-Alike (utf8 "过期时间") _ _ (code-Alike _ _ (rfc3339-Alike e.expires_at e'.expires_at))
        ▸ refl
        ▸ row-Alike (utf8 "命中次数") _ _ (decimal-Alike e.hit_count e'.hit_count)
        ▸ refl
        ▸ refl
        ▸ refl
        ▸ section-Alike rs qs h
        ▸ refl
        ▸ refl
        ▸ refl
        ▸ tt)

  -- The quotes and angle brackets of the page that shows a success depend only on the range shown
  -- and on which push results have a detail: the address, the CIDR, and the names and output of the
  -- pushes cannot add any.
  pub markup-render_root :
      (e e' : Entry) (rs qs : List PushResult)
      → root_scope syn f cfg e.cidr ≡ root_scope syn f cfg e'.cidr
      → HaveShape rs qs
      → markup (render_root syn f cfg e rs) ≡ markup (render_root syn f cfg e' qs)
  unfolding render_root
  markup-render_root e e' rs qs same h =
      root-Alike (root_scope syn f cfg e.cidr) e e' rs qs h
      ∙ ap (λ s. markup (concat (root_pieces syn f cfg e' qs s))) same

  form-Alike :
      (scope : Scope) (ip ip' : Ip)
      → Alike (concat (form_pieces syn f cfg ip scope)) (concat (form_pieces syn f cfg ip' scope))
  form-Alike scope ip ip' =
      concat-Alike (form_pieces syn f cfg ip scope) (form_pieces syn f cfg ip' scope) (
        refl
        ▸ refl
        ▸ refl
        ▸ refl
        ▸ row-Alike (utf8 "当前来源 IP") _ _
            (code-Alike _ _ (escaped-Alike (syn.format ip) (syn.format ip')))
        ▸ refl
        ▸ refl
        ▸ refl
        ▸ refl
        ▸ refl
        ▸ refl
        ▸ refl
        ▸ refl
        ▸ refl
        ▸ tt)

  -- Doc.
  pub markup-render_auth_form :
      (r r' : Request) (ip ip' : Ip)
      → form_scope cfg r ip ≡ form_scope cfg r' ip'
      → markup (render_auth_form syn f cfg r ip) ≡ markup (render_auth_form syn f cfg r' ip')
  unfolding render_auth_form
  markup-render_auth_form r r' ip ip' same =
      form-Alike (form_scope cfg r ip) ip ip'
      ∙ ap (λ s. markup (concat (form_pieces syn f cfg ip' s))) same
