-- ===== src/Crates/Concrete.antt =====
-- Association lists as the maps of the three crates, a codec and fractions: values that meet every
-- promise, at which theorems are applied and the model runs.
pub mod Disks
use shadowfs.Base.{
  ℕ, ◌*◌, ◌^◌, ◌≡◌, refl, none, List, [], ◌∷◌, arith, ltb, lookup, put, without, lookup-put,
  lookup-without, put-IsDistinct, without-IsDistinct, IsDistinct, length, take,
}
use shadowfs.Crates.DashMap.{DashMap}
use shadowfs.Crates.IndexMap.{IndexMap}
use shadowfs.Crates.LruCache.{LruCache, promote}
use shadowfs.Crates.Codec.{Codec, Bytes}
use shadowfs.Error.{IoResult, done, failed, invalid_data}
use shadowfs.Crates.Float.{Float}

module _ {K : Type 0} (dec : Discrete K) (V : Type 0) where
  pub lookup-nil : (k : K) → lookup {V = V} dec k [] ≡ none
  unfolding lookup
  lookup-nil k = refl

  -- A list with the proof that no key stands twice.
  abbrev pub Assoc : Type 0
  Assoc = (l : List (K × V)) × IsDistinct dec l

  abbrev pub assoc_dash_map : DashMap dec V
  assoc_dash_map = record {
    Map = Assoc;
    new = ([], tt);
    get = λ k m. lookup dec k m.0;
    insert = λ k v m. ((put dec k v m.0, put-IsDistinct dec k v m.0 m.1), lookup dec k m.0);
    remove = λ k m. ((without dec k m.0, without-IsDistinct dec k m.0 m.1), lookup dec k m.0);
    iter = λ m. m.0;
    len = λ m. length m.0;
    get-new = lookup-nil;
    get-insert = λ k j v m. lookup-put dec k j v m.0;
    insert_old = λ k v m. refl;
    get-remove = λ k j m. lookup-without dec k j m.0;
    remove_old = λ k m. refl;
    lookup-iter = λ k m. refl;
    iter-IsDistinct = λ m. m.1;
    length-iter = λ m. refl;
  }

  abbrev pub assoc_index_map : IndexMap dec V
  assoc_index_map = record {
    Map = List (K × V);
    new = [];
    insert = put dec;
    shift_remove = without dec;
    get = lookup dec;
    iter = λ m. m;
    iter-new = refl;
    iter-insert = λ k v m. refl;
    iter-shift_remove = λ k m. refl;
    get-iter = λ k m. refl;
  }

  abbrev pub assoc_lru_cache : LruCache dec V
  assoc_lru_cache = record {
    Cache = ℕ × List (K × V);
    new = λ n. (n, []);
    get = λ k c. ((c.0, promote dec V k (lookup dec k c.1) c.1), lookup dec k c.1);
    put = λ k v c. (c.0, take c.0 ((k, v) ∷ without dec k c.1));
    pop = λ k c. ((c.0, without dec k c.1), lookup dec k c.1);
    clear = λ c. (c.0, []);
    cap = λ c. c.0;
    len = λ c. length c.1;
    order = λ c. c.1;
    order-new = λ n. refl;
    cap-new = λ n. refl;
    get_value = λ k c. refl;
    order-get = λ k c. refl;
    cap-get = λ k c. refl;
    order-put = λ k v c. refl;
    cap-put = λ k v c. refl;
    pop_value = λ k c. refl;
    order-pop = λ k c. refl;
    cap-pop = λ k c. refl;
    order-clear = λ c. refl;
    cap-clear = λ c. refl;
    length-order = λ c. refl;
  }

abbrev pub unmark : Bytes → IoResult Bytes
unmark [] = failed (record { kind = invalid_data; message = [] })
unmark (c ∷ d) = done d

pub unmark-mark : (d c : Bytes) → done (0 ∷ d) ≡ done c → unmark c ≡ done d
unmark-mark d c h = ground arith

-- A hash that tells all contents apart, and a compression that puts a mark in front.
abbrev pub plain_codec : Codec
plain_codec = record {
  hash = λ d. d;
  compress = λ d. done (0 ∷ d);
  decompress = unmark;
  decompress-compress = unmark-mark;
}

-- Fractions: a / b is above c / d when c * b < a * d.
abbrev pub fractions : Float
fractions = record {
  F64 = ℕ × ℕ;
  from_usize = λ n. (n, 1);
  div = λ a b. (a.0 * b.1, a.1 * b.0);
  gt = λ a b. ltb (b.0 * a.1) (a.0 * b.1);
  literal = λ n d. (n, 10 ^ d);
}
