-- ===== src/Nft/Script.antt =====
-- The script as text. `%d` and `%s` put a number and a text in the place of the verb.
use nft_auth_whitelist.Prelude.{
  suc, List, [], ◌∷◌, ◌++◌, map, Bool, true, false, ◌&&◌, if◌then◌else◌,
}
use nft_auth_whitelist.Prelude.Int.{ℤ, pos, negsuc, ltb_ℤ}
use nft_auth_whitelist.Prelude.Sort.{sort}
use nft_auth_whitelist.Text.{Text, text, text_lt, join, itoa}

-- `Table` is never read.
pub record Config : Type 0 where
  pub allow4 : List Text
  pub allow6 : List Text
  pub protected_tcp_ports : List ℤ
  pub protected_udp_ports : List ℤ

abbrev pub table_name : Text
table_name = text "nft_auth_whitelist"

-- `fmt.Sprintf("%d", v)`
unfoldable pub decimal : ℤ → Text
decimal (pos n) = itoa n
decimal (negsuc n) = b'-' ∷ itoa (suc n)

unfoldable pub ports_list : List ℤ → Text
unfolding decimal
ports_list p = join (text ", ") (map decimal (sort ltb_ℤ p))

unfoldable pub elements : List Text → Text
elements cidrs = join (text ", ") (sort text_lt cidrs)

abbrev is_empty : Text → Bool
is_empty [] = true
is_empty (c ∷ s) = false

abbrev around : Text → Text → Text → Text
around before s behind = before ++ (s ++ behind)

abbrev preamble : Text
preamble =
    text "#!/usr/sbin/nft -f\n"
    ++ (text "# nft-auth-whitelist standalone guard (additive, default-off).\n"
        ++ (around (text "# This script ONLY manages table inet ") table_name (text ".\n")
            ++ (text "# It never flushes the ruleset and never touches any other table\n"
                ++ text
                    "# (it leaves the main project's tables and your other tables untouched).\n\n")))

abbrev reset : Text
reset =
    around (text "table inet ") table_name (text "\n")
    ++ around (text "delete table inet ") table_name (text "\n\n")

-- The set of the allowed addresses of one family.
unfoldable pub set : Text → Text → Text → Text
set name type elems =
    around (text "\tset ") name (text " {\n\t\ttype ")
    ++ (type
        ++ (text "\n\t\tflags interval\n\t\tauto-merge\n"
            ++ ((if is_empty elems
                  then []
                  else around (text "\t\telements = { ") elems (text " }\n"))
                ++ text "\t}\n\n")))

-- The three rules of the protected ports of one protocol.
unfoldable pub rules : Text → Text → Text
rules protocol ports =
    if is_empty ports
    then []
    else around (text "\t\tip saddr @allow4 ") protocol (text " dport { ")
      ++ (around ports (text " } accept\n\t\tip6 saddr @allow6 ") protocol
          ++ (text " dport { "
              ++ (around ports (text " } accept\n\t\t") protocol
                  ++ around (text " dport { ") ports (text " } drop\n"))))

unfoldable pub generate_script : Config → Text
unfolding ports_list elements set rules
generate_script c =
    let tcp = ports_list c.protected_tcp_ports in
    let udp = ports_list c.protected_udp_ports in
    preamble
    ++ (reset
        ++ (around (text "table inet ") table_name (text " {\n")
            ++ (set (text "allow4") (text "ipv4_addr") (elements c.allow4)
                ++ (set (text "allow6") (text "ipv6_addr") (elements c.allow6)
                    ++ (text
                          "\tchain guard {\n\t\ttype filter hook input priority -10; policy accept;\n"
                        ++ (rules (text "tcp") tcp
                            ++ (rules (text "udp") udp
                                ++ ((if is_empty tcp && is_empty udp
                                      then text
                                          "\t\t# no protected ports configured: guard is a no-op\n"
                                      else [])
                                    ++ text "\t}\n}\n"))))))))
