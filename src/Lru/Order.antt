-- ===== src/Lru/Order.antt =====
-- The order and the counts of `LruTracker`: what an access and a removal change, and the invariant
-- that both structures speak of the same paths.
use shadowfs.Base.{
  ℕ, ◌-◌, ◌/◌, ◌^◌, ◌≡◌, refl, ap, ◌∙◌, List, [], ◌∷◌, ◌++◌, none, some, ite, arith, take, keys,
  lookup, put, without, lookup-put, lookup-without, put_absent, put-IsDistinct, without-IsDistinct,
  IsDistinct, is_some, unwrap_or,
}
use shadowfs.Path.{ShadowPath, ShadowPath-discrete}
use shadowfs.Stats.{fetch_add}
use shadowfs.Lru
use shadowfs.Lru.{
  Orders, Counts, LruTracker, AccessStats, record_access, get_least_recently_used, remove_entry,
  get_access_stats, stats_at,
}

-- The paths other than one, in their order.
unfoldable pub others : ShadowPath → List ShadowPath → List ShadowPath
others p [] = []
others p (q ∷ l) = let rest = others p l in ite (ShadowPath-discrete p q) rest (q ∷ rest)

keys-without :
    {V : Type 0} (p : ShadowPath) (l : List (ShadowPath × V))
    → keys (without ShadowPath-discrete p l) ≡ others p (keys l)
unfolding without others
keys-without p [] = refl
keys-without p ((q, v) ∷ l) = ground (arith, keys-without p l)

keys-append : {V : Type 0} (l m : List (ShadowPath × V)) → keys (l ++ m) ≡ keys l ++ keys m
keys-append [] m = refl
keys-append ((q, v) ∷ l) m = ap (◌∷◌ q) (keys-append l m)

lookup-nothing :
    (p : ShadowPath) → is_some {A = ℕ} none ≡ is_some {A = ℕ} (lookup ShadowPath-discrete p [])
unfolding lookup
lookup-nothing p = refl

module _ (orders : Orders) (counts : Counts) where
  -- No path twice in the order, and a count for exactly the paths of the order.
  pub record IsTracked (t : LruTracker orders counts) : Type 0 where
    pub distinct : IsDistinct ShadowPath-discrete (orders.iter t.access_order)
    pub counted :
        (p : ShadowPath)
        → is_some (counts.get p t.access_count)
          ≡ is_some (lookup ShadowPath-discrete p (orders.iter t.access_order))

  pub new-IsTracked : IsTracked (Lru.new orders counts)
  new-IsTracked = record {
    distinct = rw orders.iter-new tt;
    counted = λ p. rw (counts.get-new, orders.iter-new) (lookup-nothing p);
  }

  abbrev pub order_after : ℕ → ShadowPath → LruTracker orders counts → orders.Map
  order_after now p t = orders.insert p now (orders.shift_remove p t.access_order)

  pub iter-record_access :
      (now : ℕ) (p : ShadowPath) (t : LruTracker orders counts)
      → orders.iter (order_after now p t)
        ≡ without ShadowPath-discrete p (orders.iter t.access_order) ++ (p, now) ∷ []
  iter-record_access now p t =
      let l = without ShadowPath-discrete p (orders.iter t.access_order) in
      let fresh : lookup ShadowPath-discrete p l ≡ none =
        ground (arith, lookup-without ShadowPath-discrete p p (orders.iter t.access_order)) in
      orders.iter-insert p now (orders.shift_remove p t.access_order)
      ∙ ap (put ShadowPath-discrete p now) (orders.iter-shift_remove p t.access_order)
      ∙ put_absent ShadowPath-discrete p now l fresh

  -- An access moves the path to the end of the order and leaves the order of the others; a removal
  -- takes the path out and leaves the order of the others.
  pub least_recently_used-record_access :
      (n now : ℕ) (p : ShadowPath) (t : LruTracker orders counts)
      → (get_least_recently_used orders counts n (record_access orders counts now p t)
          ≡ take n (others p (keys (orders.iter t.access_order)) ++ p ∷ []))
        × (get_least_recently_used orders counts n (remove_entry orders counts p t)
            ≡ take n (others p (keys (orders.iter t.access_order))))
  unfolding get_least_recently_used record_access remove_entry
  least_recently_used-record_access n now p t = (
    ap (λ (l : List (ShadowPath × ℕ)). take n (keys l)) (iter-record_access now p t)
        ∙ ap (take n) (
            keys-append (without ShadowPath-discrete p (orders.iter t.access_order)) ((p, now) ∷ [])
            ∙ ap (λ (l : List ShadowPath). l ++ p ∷ [])
                (keys-without p (orders.iter t.access_order))),
    ap (λ (l : List (ShadowPath × ℕ)). take n (keys l)) (orders.iter-shift_remove p t.access_order)
        ∙ ap (take n) (keys-without p (orders.iter t.access_order)),
  )

  lookup-order_after :
      (now : ℕ) (p q : ShadowPath) (t : LruTracker orders counts)
      → lookup ShadowPath-discrete q (orders.iter (order_after now p t))
        ≡ ite
            (ShadowPath-discrete q p)
            (some now)
            (lookup ShadowPath-discrete q (orders.iter t.access_order))
  lookup-order_after now p q t = ground (
    arith,
    orders.iter-insert p now (orders.shift_remove p t.access_order),
    orders.iter-shift_remove p t.access_order,
    lookup-put ShadowPath-discrete p q now (orders.iter (orders.shift_remove p t.access_order)),
    lookup-without ShadowPath-discrete p q (orders.iter t.access_order),
  )

  pub record_access-IsTracked :
      (now : ℕ) (p : ShadowPath) (t : LruTracker orders counts)
      → IsTracked t
      → IsTracked (record_access orders counts now p t)
  unfolding record_access
  record_access-IsTracked now p t h =
      let l = orders.iter t.access_order in
      let removed : IsDistinct ShadowPath-discrete (without ShadowPath-discrete p l) =
        without-IsDistinct ShadowPath-discrete p l h.distinct in
      let count = fetch_add (unwrap_or (counts.get p t.access_count) 0) 1 in
      record {
        distinct =
            rw (orders.iter-insert, orders.iter-shift_remove)
              (put-IsDistinct ShadowPath-discrete p now (without ShadowPath-discrete p l) removed);
        counted = λ q. ground (
          arith,
          lookup-order_after now p q t,
          counts.get-insert p q count t.access_count,
          h.counted q,
        );
      }

  pub remove_entry-IsTracked :
      (p : ShadowPath) (t : LruTracker orders counts)
      → IsTracked t
      → IsTracked (remove_entry orders counts p t)
  unfolding remove_entry
  remove_entry-IsTracked p t h =
      let l = orders.iter t.access_order in
      record {
        distinct =
            rw orders.iter-shift_remove (without-IsDistinct ShadowPath-discrete p l h.distinct);
        counted = λ q. ground (
          arith,
          orders.iter-shift_remove p t.access_order,
          lookup-without ShadowPath-discrete p q l,
          counts.get-remove p q t.access_count,
          h.counted q,
        );
      }

  -- The statistics after an access and after a removal: of the path itself, the time of the access
  -- with one more access counted, or nothing; of every other path, what they were.
  pub get_access_stats-record_access :
      (at now : ℕ) (p q : ShadowPath) (t : LruTracker orders counts)
      → (get_access_stats orders counts now q (record_access orders counts at p t)
          ≡ ite
              (ShadowPath-discrete q p)
              (some (record {
                last_accessed = at;
                access_count = fetch_add (unwrap_or (counts.get p t.access_count) 0) 1;
                age_seconds = (now - at) / 10 ^ 9;
              }))
              (get_access_stats orders counts now q t))
        × (get_access_stats orders counts now q (remove_entry orders counts p t)
            ≡ ite (ShadowPath-discrete q p) none (get_access_stats orders counts now q t))
  unfolding get_access_stats record_access remove_entry
  get_access_stats-record_access at now p q t =
      let count = fetch_add (unwrap_or (counts.get p t.access_count) 0) 1 in
      (
        ground (
          arith,
          orders.get-iter q (order_after at p t),
          orders.get-iter q t.access_order,
          lookup-order_after at p q t,
          counts.get-insert p q count t.access_count,
        ),
        ground (
          arith,
          orders.get-iter q (orders.shift_remove p t.access_order),
          orders.get-iter q t.access_order,
          orders.iter-shift_remove p t.access_order,
          lookup-without ShadowPath-discrete p q (orders.iter t.access_order),
          counts.get-remove p q t.access_count,
        ),
      )
