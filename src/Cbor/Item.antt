-- ===== src/Cbor/Item.antt =====
-- The data items of CBOR (RFC 8949) that CTAP2 uses, as trees, and their canonical encoding; what
-- the readers of zerofido_cbor.c are compared with.
use zerofido.Base.{ℕ, suc, ◌^◌, ◌<◌, ◌≢◌, List, [], ◌++◌, length}
use zerofido.Cbor.Encode.{head_bytes}
use Prim.Native.Nat.{max}

mutual
  pub data Item : Type 0 where
    uint : ℕ → Item
    negint : ℕ → Item
    bytes : List ℕ → Item
    text : List ℕ → Item
    array : Items → Item
    map : Pairs → Item
    simple : ℕ → Item

  pub data Items : Type 0 where
    nil : Items
    cons : Item → Items → Items

  pub data Pairs : Type 0 where
    empty : Pairs
    pair : Item → Item → Pairs → Pairs

unfoldable mutual
  pub count : Items → ℕ
  count nil = 0
  count (cons x xs) = suc (count xs)

unfoldable mutual
  pub pairs : Pairs → ℕ
  pairs empty = 0
  pairs (pair k v ps) = suc (pairs ps)

unfoldable mutual
  pub item_bytes : Item → List ℕ
  item_bytes (uint n) = head_bytes 0 n
  item_bytes (negint n) = head_bytes 1 n
  item_bytes (bytes s) = head_bytes 2 (length s) ++ s
  item_bytes (text s) = head_bytes 3 (length s) ++ s
  item_bytes (array xs) = head_bytes 4 (count xs) ++ items_bytes xs
  item_bytes (map ps) = head_bytes 5 (pairs ps) ++ pairs_bytes ps
  item_bytes (simple n) = head_bytes 7 n

  pub items_bytes : Items → List ℕ
  items_bytes nil = []
  items_bytes (cons x xs) = item_bytes x ++ items_bytes xs

  pub pairs_bytes : Pairs → List ℕ
  pairs_bytes empty = []
  pairs_bytes (pair k v ps) = item_bytes k ++ (item_bytes v ++ pairs_bytes ps)

-- How many levels of arrays and maps are nested inside an item that has contents.
unfoldable mutual
  pub depth : Item → ℕ
  depth (uint n) = 0
  depth (negint n) = 0
  depth (bytes s) = 0
  depth (text s) = 0
  depth (array xs) = height xs
  depth (map ps) = height_pairs ps
  depth (simple n) = 0

  pub height : Items → ℕ
  height nil = 0
  height (cons x xs) = max (suc (depth x)) (height xs)

  pub height_pairs : Pairs → ℕ
  height_pairs empty = 0
  height_pairs (pair k v ps) = max (suc (depth k)) (max (suc (depth v)) (height_pairs ps))

-- Arguments and lengths fit 64 bits; the simple value 31 is not assigned.
unfoldable mutual
  pub IsEncodable : Item → Type 0
  IsEncodable (uint n) = n < 2 ^ 64
  IsEncodable (negint n) = n < 2 ^ 64
  IsEncodable (bytes s) = length s < 2 ^ 64
  IsEncodable (text s) = length s < 2 ^ 64
  IsEncodable (array xs) = (count xs < 2 ^ 64) × IsEncodableItems xs
  IsEncodable (map ps) = (pairs ps < 2 ^ 64) × IsEncodablePairs ps
  IsEncodable (simple n) = (n < 2 ^ 64) × (n ≢ 31)

  pub IsEncodableItems : Items → Type 0
  IsEncodableItems nil = Unit
  IsEncodableItems (cons x xs) = IsEncodable x × IsEncodableItems xs

  pub IsEncodablePairs : Pairs → Type 0
  IsEncodablePairs empty = Unit
  IsEncodablePairs (pair k v ps) = IsEncodable k × IsEncodable v × IsEncodablePairs ps
