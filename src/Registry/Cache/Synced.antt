-- ===== src/Registry/Cache/Synced.antt =====
-- The table and the key list of the cache hold the same keys, and the bound on its size.
use proctssor.Prelude.{
  String, eq_iff, ◌≡◌, ◌∙◌, true, false, List, ◌∷◌, Map, lookup, insert, erase, lookup-insert,
  lookup-erase, is_some, length, arith,
}
use proctssor.Registry.Cache.{remove, move_to_front}
use proctssor.Registry.Cache.Order.{has, IsDistinct, has-remove, remove-IsDistinct, length-remove}
use proctssor.Registry.Cache.Table.{
  IsKeyed, length-insert, insert-IsKeyed, length-erase, erase-IsKeyed,
}

pub record IsSynced {V : Type 0} (items : Map V) (keys : List String) : Type 0 where
  pub distinct : IsDistinct keys
  pub keyed : IsKeyed items
  pub same : (k : String) → has k keys ≡ is_some (lookup k items)
  pub sizes : length items ≡ length keys

module _ {V : Type 0} where
  pub drop-IsSynced :
      (key : String) (items : Map V) (keys : List String)
      → IsSynced items keys
      → IsSynced (erase key items) (remove key keys)
  drop-IsSynced key items keys h = record {
    distinct = remove-IsDistinct key keys h.distinct;
    keyed = erase-IsKeyed key items h.keyed;
    same =
        λ k. has-remove key k keys h.distinct ∙ ground (arith, h.same k, lookup-erase key k items);
    sizes =
        ground (arith, h.sizes, h.same key, length-remove key keys, length-erase key items h.keyed);
  }

  -- A write to a key that is there, which moves to the front.
  pub touch-IsSynced :
      (key : String) (v : V) (items : Map V) (keys : List String)
      → is_some (lookup key items) ≡ true
      → IsSynced items keys
      → IsSynced (insert key v items) (move_to_front key keys)
  unfolding move_to_front has
  touch-IsSynced key v items keys here h = record {
    distinct = (
      has-remove key key keys h.distinct ∙ ground (arith, eq_iff key key),
      remove-IsDistinct key keys h.distinct,
    );
    keyed = insert-IsKeyed key v items h.keyed;
    same = λ k.
        ground (arith, h.same k, lookup-insert key k v items, has-remove key k keys h.distinct);
    sizes =
        ground
          (arith, here, h.sizes, h.same key, length-remove key keys, length-insert key v items);
  }

  -- A new key.
  pub push-IsSynced :
      (key : String) (v : V) (items : Map V) (keys : List String)
      → is_some (lookup key items) ≡ false
      → IsSynced items keys
      → IsSynced (insert key v items) (key ∷ keys)
  unfolding has
  push-IsSynced key v items keys gone h = record {
    distinct = (h.same key ∙ gone, h.distinct);
    keyed = insert-IsKeyed key v items h.keyed;
    same = λ k. ground (arith, h.same k, lookup-insert key k v items);
    sizes = ground (arith, gone, h.sizes, length-insert key v items);
  }
