-- ===== src/Notifier/Laws.antt =====
-- A payload does not depend on the order of a map, and the log does not depend on the URL.
use mathlib.Core.List.Permᴰ
use nft_auth_whitelist.Prelude.{
  Option, none, some, List, [], ◌∷◌, ◌≡◌, ◌⊎◌, inl, inr, refl, ap, true, false, All, Permᴰ,
  Bool-cases,
}
use nft_auth_whitelist.Prelude.Sort.{IsOrder, AreApart, sort-perm-eq, sort-perm-eq_total}
use nft_auth_whitelist.Text.{Text, text_eq, text_lt_total, text_lt-IsOrder, text_ne, text_total}
use nft_auth_whitelist.Clock.{Time}
use nft_auth_whitelist.Dict.{Dict, find, HasDistinctKeys, MapOrder, find-perm}
use nft_auth_whitelist.Audit.{Log, Value}
use nft_auth_whitelist.Notifier.Defs.{
  Notifier, Outside, by_key, lines, payload, log_reply, send, notify,
}

by_key-IsOrder : IsOrder by_key
unfolding by_key
by_key-IsOrder = record {
  asym = λ a b. text_lt-IsOrder.asym a.0 b.0;
  between = λ a b c. text_lt-IsOrder.between a.0 b.0 c.0;
}

apart_from :
    (k : Text) (v : Value) (m : Dict Value)
    → All (λ x. text_eq k x.0 ≡ false) m
    → All (λ x. (by_key (k, v) x ≡ true) ⊎ (by_key x (k, v) ≡ true)) m
unfolding by_key
apart_from k v [] h = tt
apart_from k v (x ∷ m) h = (text_lt_total k x.0 (text_ne k x.0 h.0), apart_from k v m h.1)

keys-AreApart : (m : Dict Value) → HasDistinctKeys m → AreApart by_key m
keys-AreApart [] h = tt
keys-AreApart ((k, v) ∷ m) h = (apart_from k v m h.0, keys-AreApart m h.1)

module _ (o : Outside) where
  lines-eq :
      (d d' : Dict Value)
      → ((k : Text) → find k d ≡ find k d')
      → (ks : List Text) → lines o d ks ≡ lines o d' ks
  unfolding lines
  lines-eq d d' h [] = refl
  lines-eq d d' h (k ∷ ks) = rw (h k, lines-eq d d' h ks)

  -- The detail as any other listing of the same map, with the map visited in any other order.
  abbrev pub with_order : MapOrder Value → Outside
  with_order ord = record o { detail_order = ord }

  lines-with_order :
      (ord : MapOrder Value) (d : Dict Value) (ks : List Text)
      → lines (with_order ord) d ks ≡ lines o d ks
  unfolding lines
  lines-with_order ord d [] = refl
  lines-with_order ord d (k ∷ ks) = rw (lines-with_order ord d ks)

  -- The payload of a notice does not depend on the order in which Go visits the map of its details,
  -- nor on the order in which the map was filled.
  pub payload-perm :
      (ord : MapOrder Value) (n : Notifier) (now : Time) (event : Text) (d d' : Dict Value)
      → HasDistinctKeys d
      → Permᴰ d d'
      → payload o n now event d ≡ payload (with_order ord) n now event d'
  unfolding payload
  payload-perm ord n now event d d' h p = elim (Bool-cases (text_eq n.chat_id [])) [
    | inl e ↦ simp (payload, e) (rw (sort-perm-eq by_key-IsOrder p (keys-AreApart d h)))
    | inr e ↦
        let visits =
          Permᴰ.trans (o.detail_order.order-perm 0 d)
            (Permᴰ.trans p (Permᴰ.symm (ord.order-perm 0 d'))) in
        let ks = sort-perm-eq_total text_lt-IsOrder text_total (Permᴰ.map (λ x. x.0) visits) in
        let ls = λ (l : List Text). lines-eq d d' (λ k. find-perm k p h) l in
        simp (payload, e) (rw (lines-with_order ord, ks, ls))
  ]

  module _ (n : Notifier) (url : Text)
      (same : (body : Text) → o.post n.url body n.timeout ≡ o.post url body n.timeout) where
    send-same :
        (event : Text) (body : Option Text) (al : Log)
        → send o n event body al ≡ send o (record n { url = url }) event body al
    send-same event none al = refl
    send-same event (some body) al = ap (λ r. log_reply o event r al) (same body)

    -- If two webhook URLs that are set answer alike, then Notify leaves the same audit log for
    -- both.
    pub notify_secret :
        (now : Time) (event : Text) (detail : Dict Value) (al : Log)
        → text_eq n.url [] ≡ false
        → text_eq url [] ≡ false
        → notify o n now event detail al ≡ notify o (record n { url = url }) now event detail al
    unfolding notify payload
    notify_secret now event detail al h k =
        simp (notify, h, k) (send-same event (payload o n now event detail) al)
