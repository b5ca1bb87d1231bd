-- ===== src/RateLimit/Windows.antt =====
-- How failures add up in a window of a minute.
use nft_auth_whitelist.Prelude.{
  ℕ, suc, ◌+◌, ◌<◌, Option, none, some, List, [], ◌∷◌, ◌≡◌, refl, subst, ◌∙◌, inl, inr, Bool, true,
  false, not, arith, if◌then◌else◌, length, select, All, Bool-cases,
}
use nft_auth_whitelist.Prelude.Int.{ℤ, pos, leb_ℤ, ltb_ℤ}
use nft_auth_whitelist.Text.{Text, text_eq, text_eq_iff, text_eq_refl, text_eq_comm}
use nft_auth_whitelist.Dict.{
  Dict, find, put, HasDistinctKeys, MapOrder, drop_loop-map, find-put, HasDistinctKeys-select,
  HasDistinctKeys-put,
}
use nft_auth_whitelist.Clock.{Time, minute}
use nft_auth_whitelist.RateLimit.Defs.{
  Limiter, Bucket, is_over, bucket_for, cleanup_expired_locked, blocked,
}

-- The lookup leaves out what is over.
abbrev live_bucket : Time → Option Bucket → Option Bucket
live_bucket now none = none
live_bucket now (some b) = if is_over now b then none else some b

find-none :
    (k : Text) (p : Text × Bucket → Bool) (m : Dict Bucket)
    → All (λ e. text_eq k e.0 ≡ false) m
    → find k (select p m) ≡ none
unfolding find
find-none k p [] h = refl
find-none k p ((j, w) ∷ m) h =
    ground (arith, find-none k p m h.1, h.0, text_eq_iff j k, text_eq_iff k j)

find-live :
    (now : Time) (k : Text) (m : Dict Bucket)
    → HasDistinctKeys m
    → find k (select (λ x. not (is_over now x.1)) m) ≡ live_bucket now (find k m)
unfolding find
find-live now k [] h = refl
find-live now k ((j, w) ∷ m) h = elim (Bool-cases (text_eq j k)) [
  | inl s ↦
      let j' : j ≡ k = (text_eq_iff j k).0 s in
      ground (arith, s, find-none j (λ x. not (is_over now x.1)) m h.0)
  | inr s ↦ ground (arith, s, find-live now k m h.1)
]

-- The count works: it is switched on, and the limit is not negative or zero.
pub record IsOn (f : Limiter) : Type 0 where
  pub enabled : f.enabled ≡ true
  pub positive : leb_ℤ f.max (pos 0) ≡ false
  pub distinct : HasDistinctKeys f.buckets

module _ (ord : MapOrder Bucket) where
  cleaned :
      (f : Limiter) (now : Time)
      → HasDistinctKeys f.buckets
      → (cleanup_expired_locked ord f now).buckets ≡ select (λ x. not (is_over now x.1)) f.buckets
  unfolding cleanup_expired_locked
  cleaned f now h = drop_loop-map (is_over now) [] (ord.order-perm 0 f.buckets) h

  blocked-eq :
      (f : Limiter) (peer : Text) (now : Time)
      → IsOn f
      → blocked ord f peer now ≡ (
          let f' = cleanup_expired_locked ord f now in
          let b : Bucket =
            (let c = bucket_for (find peer f'.buckets) now in record c { count = suc c.count }) in
          (
            ltb_ℤ f.max (pos b.count),
            (let r : Limiter = record f' { buckets = put peer b f'.buckets } in r),
          ))
  unfolding blocked
  blocked-eq f peer now on = rw (on.enabled, on.positive)

  bucket_for-live :
      (o : Option Bucket) (now : Time) → bucket_for (live_bucket now o) now ≡ bucket_for o now
  unfolding bucket_for
  bucket_for-live none now = refl
  bucket_for-live (some b) now = ground arith

  abbrev next_bucket : Limiter → Text → Time → Bucket
  next_bucket f peer now =
      let b = bucket_for (find peer f.buckets) now in record b { count = suc b.count }

  cleaned_bucket :
      (f : Limiter) (now : Time) (j : Text)
      → HasDistinctKeys f.buckets
      → find j (cleanup_expired_locked ord f now).buckets ≡ live_bucket now (find j f.buckets)
  cleaned_bucket f now j h = rw (cleaned f now h) (find-live now j f.buckets h)

  -- What one failure does: the answer, each bucket, and that the count goes on.
  pub record IsCounted (f : Limiter) (peer : Text) (now : Time) (r : Bool × Limiter) : Type 0 where
    pub answer : r.0 ≡ ltb_ℤ f.max (pos (next_bucket f peer now).count)
    pub own : find peer r.1.buckets ≡ some (next_bucket f peer now)
    pub others :
        (j : Text)
        → text_eq peer j ≡ false
        → find j r.1.buckets ≡ live_bucket now (find j f.buckets)
    pub max : r.1.max ≡ f.max
    pub on : IsOn r.1

  -- With the count switched on, a failure is answered by whether the peer's count in its window
  -- passes the limit; the peer's window has one failure more or starts now; of the other windows
  -- those that are over are gone and the others as they were; and the limiter stays on with its
  -- limit.
  pub blocked-IsCounted :
      (f : Limiter) (peer : Text) (now : Time)
      → IsOn f
      → IsCounted f peer now (blocked ord f peer now)
  unfolding cleanup_expired_locked
  blocked-IsCounted f peer now on =
      let same : bucket_for (find peer (cleanup_expired_locked ord f now).buckets) now
          ≡ bucket_for (find peer f.buckets) now =
        rw (cleaned_bucket f now peer on.distinct) (bucket_for-live (find peer f.buckets) now) in
      rw (blocked-eq f peer now on, same)
        (record {
          answer = refl;
          own = rw (find-put, text_eq_refl);
          others = λ j n. rw (find-put, n) (cleaned_bucket f now j on.distinct);
          max = refl;
          on = record {
            enabled = on.enabled;
            positive = on.positive;
            distinct =
                HasDistinctKeys-put peer _ _
                  (rw (cleaned f now on.distinct) (HasDistinctKeys-select _ f.buckets on.distinct));
          };
        })

  -- The failures of a list, one after the other.
  pub fail_all : Limiter → List (Text × Time) → Limiter
  fail_all f [] = f
  fail_all f ((peer, t) ∷ es) = fail_all (blocked ord f peer t).1 es

  abbrev pub failures : Text → List (Text × Time) → ℕ
  failures peer es = length (select (λ e. text_eq peer e.0) es)

  still_open :
      (start n t : ℕ)
      → t < start + minute
      → is_over t (record { window_start = start; count = n }) ≡ false
  unfolding is_over
  still_open start n t h = ground arith

  -- The window of a peer that began at `start` holds `n` failures.
  record HasWindow (f : Limiter) (peer : Text) (limit : ℤ) (start n : ℕ) : Type 0 where
    pub bucket : find peer f.buckets ≡ some (record { window_start = start; count = n })
    pub max : f.max ≡ limit
    pub on : IsOn f

  own-HasWindow :
      (f : Limiter) (peer : Text) (limit : ℤ) (start n : ℕ) (t : Time)
      → HasWindow f peer limit start n
      → t < start + minute
      → HasWindow (blocked ord f peer t).1 peer limit start (suc n)
  unfolding bucket_for
  own-HasWindow f peer limit start n t w h =
      let c = blocked-IsCounted f peer t w.on in
      record {
        bucket = c.own ∙ rw (w.bucket, bucket_for, still_open start n t h);
        max = c.max ∙ w.max;
        on = c.on;
      }

  other-HasWindow :
      (f : Limiter) (peer : Text) (limit : ℤ) (start n : ℕ) (who : Text) (t : Time)
      → text_eq who peer ≡ false
      → HasWindow f peer limit start n
      → t < start + minute
      → HasWindow (blocked ord f who t).1 peer limit start n
  other-HasWindow f peer limit start n who t e w h =
      let c = blocked-IsCounted f who t w.on in
      record {
        bucket = c.others peer e ∙ rw (w.bucket, still_open start n t h);
        max = c.max ∙ w.max;
        on = c.on;
      }

  fail_all-HasWindow :
      (f : Limiter) (peer : Text) (limit : ℤ) (start n : ℕ) (es : List (Text × Time))
      → HasWindow f peer limit start n
      → All (λ e. e.1 < start + minute) es
      → HasWindow (fail_all f es) peer limit start (failures peer es + n)
  unfolding fail_all
  fail_all-HasWindow f peer limit start n [] w h =
      subst (HasWindow f peer limit start) (omega arith) w
  fail_all-HasWindow f peer limit start n ((who, t) ∷ es) w h =
      elim (Bool-cases (text_eq peer who)) [
        | inl e ↦
            let who' : peer ≡ who = (text_eq_iff peer who).0 e in
            let own =
              fail_all-HasWindow (blocked ord f peer t).1 peer limit start (suc n) es
                (own-HasWindow f peer limit start n t w h.0) h.1 in
            let fewer : failures peer es + suc n ≡ failures peer ((who, t) ∷ es) + n =
              ground (arith, e) in
            subst (HasWindow (fail_all f ((who, t) ∷ es)) peer limit start) fewer (
              subst
                (λ p.
                  HasWindow (fail_all (blocked ord f p t).1 es) peer limit start
                    (failures peer es + suc n))
                who' own)
        | inr e ↦
            let other =
              fail_all-HasWindow (blocked ord f who t).1 peer limit start n es
                (other-HasWindow f peer limit start n who t (rw text_eq_comm e) w h.0) h.1 in
            let as_many : failures peer es + n ≡ failures peer ((who, t) ∷ es) + n =
              ground (arith, e) in
            subst (HasWindow (fail_all f ((who, t) ∷ es)) peer limit start) as_many other
      ]

  first-HasWindow :
      (f : Limiter) (peer : Text) (start : Time)
      → IsOn f
      → bucket_for (find peer f.buckets) start ≡ record { window_start = start; count = 0 }
      → HasWindow (blocked ord f peer start).1 peer f.max start 1
  first-HasWindow f peer start on h =
      let c = blocked-IsCounted f peer start on in
      record { bucket = c.own ∙ rw h; max = c.max; on = c.on }

  -- With the count switched on and a window that starts with a failure of a peer, a later failure
  -- of the peer within the minute is blocked exactly if the failures of this peer so far, this one
  -- included, are more than the limit, however the failures of other peers lie in between.
  pub blocked_in_window :
      (f : Limiter) (peer : Text) (start t : Time) (es : List (Text × Time))
      → IsOn f
      → bucket_for (find peer f.buckets) start ≡ record { window_start = start; count = 0 }
      → All (λ e. e.1 < start + minute) es
      → t < start + minute
      → (blocked ord (fail_all (blocked ord f peer start).1 es) peer t).0
        ≡ ltb_ℤ f.max (pos (failures peer es + 2))
  unfolding bucket_for
  blocked_in_window f peer start t es on h a l =
      let w = fail_all-HasWindow _ peer f.max start 1 es (first-HasWindow f peer start on h) a in
      let last = blocked-IsCounted _ peer t w.on in
      last.answer
      ∙ rw (w.max, w.bucket, bucket_for, still_open start (failures peer es + 1) t l) (ground arith)
