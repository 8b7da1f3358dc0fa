-- ===== src/Ctap/Parse/Descriptors/Distinct.antt =====
-- A descriptor list that is parsed fits its storage and names no credential twice.
use zerofido.Base.{
  ℕ, ◌≤◌, ◌≡◌, ◌≢◌, refl, ap, true, false, not, List, [], ◌∷◌, ◌++◌, arith, leb, leb_false→lt,
  if_cases, length, All, length-append,
}
use zerofido.Cbor.Decode.{Cursor, read_array_start}
use zerofido.Ctap.Parse.Parsed.{
  cbor, Ensures, parsed-Ensures, refuse-Ensures, bind-Ensures, for_items-Ensures,
}
use zerofido.Ctap.Parse.Shared.{bytes_equal}
use zerofido.Ctap.Parse.Descriptors.{
  DescriptorList, parse_credential_descriptor, contains, descriptor_item, parse_descriptor_array,
}

abbrev pub Distinct : List (List ℕ) → Type 0
Distinct [] = Unit {0}
Distinct (entry ∷ entries) = All (λ e. entry ≢ e) entries × Distinct entries

pub bytes_equal_refl : (a : List ℕ) → bytes_equal a a ≡ true
unfolding bytes_equal
bytes_equal_refl [] = refl
bytes_equal_refl (x ∷ a) = ground (arith, bytes_equal_refl a)

-- The list within its storage.
pub record Fits (capacity : ℕ) (list : DescriptorList) : Type 0 where
  pub storage : list.capacity ≡ capacity
  pub within : length list.entries ≤ capacity
  pub distinct : Distinct list.entries

not-contains :
    (entries : List (List ℕ)) (d : List ℕ) → contains entries d ≡ false → All (λ e. e ≢ d) entries
unfolding contains
not-contains [] d h = tt
not-contains (entry ∷ entries) d h = (
  (λ same. cc (bytes_equal_refl d, ap (λ t. bytes_equal t d) same, front)),
  not-contains entries d (ground arith),
)
  where
    front : bytes_equal entry d ≡ false
    front = ground arith

All-snoc :
    (e d : List ℕ) (entries : List (List ℕ))
    → All (λ x. e ≢ x) entries
    → e ≢ d
    → All (λ x. e ≢ x) (entries ++ d ∷ [])
All-snoc e d [] h ne = (ne, tt)
All-snoc e d (x ∷ entries) h ne = (h.0, All-snoc e d entries h.1 ne)

Distinct-snoc :
    (entries : List (List ℕ)) (d : List ℕ)
    → Distinct entries
    → All (λ e. e ≢ d) entries
    → Distinct (entries ++ d ∷ [])
Distinct-snoc [] d h apart = (tt, tt)
Distinct-snoc (e ∷ entries) d h apart =
    (All-snoc e d entries h.0 apart.0, Distinct-snoc entries d h.1 apart.1)

descriptor_item-Fits :
    (capacity : ℕ) (list : DescriptorList) (c : Cursor)
    → Fits capacity list
    → Ensures (λ (r : DescriptorList × Cursor). Fits capacity r.0) (descriptor_item list c)
unfolding descriptor_item
descriptor_item-Fits capacity list c f =
    let P = λ (r : DescriptorList × Cursor). Fits capacity r.0 in
    bind-Ensures P (parse_credential_descriptor c) _ (λ d e.
      if_cases (Ensures P) (not d.0.public_key) (λ _. parsed-Ensures P _ f)
        (λ _. refuse-Ensures P (leb list.capacity (length list.entries)) _ _ (λ room.
          refuse-Ensures P (contains list.entries d.0.digest) _ _ (λ new.
            parsed-Ensures P _ (record {
              storage = f.storage;
              within = omega (
                arith,
                length-append list.entries (d.0.digest ∷ []),
                f.storage,
                leb_false→lt _ _ room,
              );
              distinct =
                  Distinct-snoc list.entries d.0.digest f.distinct
                    (not-contains list.entries d.0.digest new);
            })))))

pub parse_descriptor_array-Fits :
    (list : DescriptorList) (c : Cursor)
    → Ensures
        (λ (r : DescriptorList × Cursor). Fits list.capacity r.0)
        (parse_descriptor_array list c)
unfolding parse_descriptor_array
parse_descriptor_array-Fits list c =
    let P = λ (r : DescriptorList × Cursor). Fits list.capacity r.0 in
    bind-Ensures P (cbor (read_array_start c)) _ (λ n e.
      for_items-Ensures (Fits list.capacity) descriptor_item (descriptor_item-Fits list.capacity)
        n.0 _ n.1 (record { storage = refl; within = omega arith; distinct = tt }))
