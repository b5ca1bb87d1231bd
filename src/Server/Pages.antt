-- ===== src/Server/Pages.antt =====
-- renderAuthForm, renderRoot and renderPushSection. The text forms of a duration and of a time are
-- Go's own.
use nft_auth_whitelist.Prelude.{
  ◌-◌, ◌≡◌, none, some, List, [], ◌∷◌, ◌++◌, ◌&&◌, leb, if◌then◌else◌, length,
}
use nft_auth_whitelist.Text.{Text, text, text_eq, drop}
use nft_auth_whitelist.Clock.{Time, Duration, seconds}
use nft_auth_whitelist.Net.Ip.{Ip, AddressSyntax, to4}
use nft_auth_whitelist.Ipx.{Family, family_of_cidr}
use nft_auth_whitelist.Nft.{decimal}
use nft_auth_whitelist.Signer.{Entry}
use nft_auth_whitelist.SshPush.{PushResult}
use nft_auth_whitelist.Server.Defs.{ServerConfig, Request}
use nft_auth_whitelist.Server.Root.{requested_scope}
use nft_auth_whitelist.Server.Html.{utf8, escape_string, concat, markup}

pub record Formats : Type 0 where
  pub duration : Duration → Text
  pub rfc3339 : Time → Text
  pub duration_plain : (d : Duration) → markup (duration d) ≡ []
  pub rfc3339_plain : (t : Time) → markup (rfc3339 t) ≡ []

-- The range that a page names.
pub data Scope : Type 0 where
  slash_32 slash_24 slash_128 : Scope

abbrev pub scope_text : Scope → Text
scope_text slash_32 = text "/32"
scope_text slash_24 = text "/24"
scope_text slash_128 = text "/128"

abbrev pub warn : Scope → Text
warn slash_24 = utf8 "<p class=\"warn\">⚠ 风险提示：/24 会放行整个 256 个地址的网段，请仅在你确实拥有该网段时使用。</p>"
warn _ = []

abbrev pub page_head : Text
page_head = concat (
    text "<!doctype html>\n<html lang=\"zh-CN\"><head><meta charset=\"utf-8\">\n"
    ∷ text "<meta name=\"viewport\" content=\"width=device-width, initial-scale=1\">\n"
    ∷ text "<title>nft-auth-whitelist</title>\n<style>\n"
    ∷ text "body{font-family:system-ui,sans-serif;max-width:40rem;margin:3rem auto;"
    ∷ text "padding:0 1rem;line-height:1.6}\n"
    ∷ text "code{background:#f0f0f0;padding:.1rem .3rem;border-radius:.2rem}\n"
    ∷ text ".warn{color:#a00}\n"
    ∷ [])

-- A row of a table.
abbrev pub row : Text → Text → Text
row name value =
    concat (text "<tr><td>" ∷ name ∷ text "</td><td>" ∷ value ∷ text "</td></tr>\n" ∷ [])

abbrev pub code_of : Text → Text
code_of s = concat (text "<code>" ∷ s ∷ text "</code>" ∷ [])

unfoldable pub form_scope : ServerConfig → Request → Ip → Scope
form_scope cfg r ip = elim (to4 ip) [
  | none ↦ slash_128
  | some q ↦
      if cfg.allow_cidr_expand_ipv4 && text_eq (requested_scope r) (text "24")
      then slash_24
      else slash_32
]

abbrev pub form_action : Scope → Text
form_action slash_24 = text "/?scope=24"
form_action _ = text "/"

module _ (syn : AddressSyntax) (f : Formats) (cfg : ServerConfig) where
  abbrev pub form_pieces : Ip → Scope → List Text
  form_pieces ip scope =
      page_head
      ∷ utf8 "</style></head><body>\n<h1>认证入口</h1>\n"
      ∷ utf8 "<p>点击下面按钮后，服务端会把“你访问本页面的来源公网 IP”加入临时白名单。</p>\n"
      ∷ text "<table>\n"
      ∷ row (utf8 "当前来源 IP") (code_of (escape_string (syn.format ip)))
      ∷ row (utf8 "将记录范围") (scope_text scope)
      ∷ row (text "TTL") (f.duration (seconds cfg.ttl_seconds))
      ∷ text "</table>\n"
      ∷ warn scope
      ∷ text "\n<form method=\"post\" action=\""
      ∷ escape_string (form_action scope)
      ∷ utf8 "\">\n<p><button type=\"submit\">认证当前 IP</button></p>\n</form>\n"
      ∷ utf8 "<p>说明：打开本页面只会显示确认页，不会写入白名单；提交按钮后才会记录或刷新过期时间。</p>\n"
      ∷ text "</body></html>\n"
      ∷ []

  unfoldable pub render_auth_form : Request → Ip → Text
  unfolding form_scope
  render_auth_form r ip = concat (form_pieces ip (form_scope cfg r ip))

  unfoldable pub root_scope : Text → Scope
  root_scope c = elim (family_of_cidr syn c) [
    | Family.ipv6 ↦ slash_128
    | _ ↦
        if leb 3 (length c) && text_eq (drop (length c - 3) c) (text "/24")
        then slash_24
        else slash_32
  ]

  abbrev pub detail_of : PushResult → Text
  detail_of r = if r.ok then r.stdout else r.reason

  abbrev pub with_detail : Text → Text
  with_detail [] = []
  with_detail (c ∷ s) = concat (utf8 " — " ∷ code_of (escape_string (c ∷ s)) ∷ [])

  abbrev pub line_pieces : PushResult → List Text
  line_pieces r =
      text "<li>"
      ∷ escape_string r.name
      ∷ text ": "
      ∷ (if r.ok then text "ok" else text "failed")
      ∷ text ", "
      ∷ decimal r.duration_ms
      ∷ text "ms"
      ∷ with_detail (detail_of r)
      ∷ text "</li>"
      ∷ []

  unfoldable pub push_line : PushResult → Text
  push_line r = concat (line_pieces r)

  unfoldable pub push_lines : List PushResult → Text
  unfolding push_line
  push_lines [] = []
  push_lines (r ∷ rs) = push_line r ++ push_lines rs

  abbrev pub push_list : List PushResult → Text
  push_list [] = utf8 "<p>Push: 无目标</p>"
  push_list (r ∷ rs) = concat (text "<ul>" ∷ push_lines (r ∷ rs) ∷ text "</ul>" ∷ [])

  unfoldable pub render_push_section : List PushResult → Text
  unfolding push_lines
  render_push_section results =
      if cfg.push.enabled then text "<h2>Push results</h2>" ++ push_list results else []

  abbrev pub root_pieces : Entry → List PushResult → Scope → List Text
  root_pieces e results scope =
      page_head
      ∷ text "table{border-collapse:collapse}td{padding:.2rem .8rem;border-bottom:1px solid #eee}\n"
      ∷ utf8 "</style></head><body>\n<h1>认证成功</h1>\n"
      ∷ utf8 "<p>你的来源地址已被记录到临时白名单。该记录会在 TTL 到期后自动删除，不会永久加白。</p>\n"
      ∷ text "<table>\n"
      ∷ row (utf8 "记录 IP") (code_of (escape_string e.ip))
      ∷ row (utf8 "记录 CIDR") (code_of (escape_string e.cidr))
      ∷ row (utf8 "范围") (scope_text scope)
      ∷ row (utf8 "过期时间") (code_of (f.rfc3339 e.expires_at))
      ∷ row (text "TTL") (f.duration (seconds cfg.ttl_seconds))
      ∷ row (utf8 "命中次数") (decimal e.hit_count)
      ∷ text "</table>\n"
      ∷ warn scope
      ∷ text "\n"
      ∷ render_push_section results
      ∷ text "\n"
      ∷ utf8 "<p>说明：本服务只记录“你访问本页面的来源公网 IP”，不接受任何由你自行提交的 IP。"
      ∷ utf8 "再次点击认证按钮可刷新过期时间。</p>\n</body></html>\n"
      ∷ []

  unfoldable pub render_root : Entry → List PushResult → Text
  unfolding render_push_section root_scope
  render_root e results = concat (root_pieces e results (root_scope e.cidr))
