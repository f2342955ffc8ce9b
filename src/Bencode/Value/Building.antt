-- ===== src/Bencode/Value/Building.antt =====
-- Lists and dictionaries built up item by item, as the loops of the parser build them.
use uenclient.Common.{
  ◌≡◌, refl, ap, sym, ◌∙◌, false, arith, Bytes, same_bytes, same_bytes_iff, Bool-cases, inl, inr,
}
use uenclient.Bencode.Value.{
  Value, Items, nil, cons, Entries, end, entry, append_item, insert, contains,
}

abbrev pub append_items : Items → Items → Items
append_items acc nil = acc
append_items acc (cons v xs) = append_items (append_item acc v) xs

abbrev pub insert_all : Entries → Entries → Entries
insert_all acc end = acc
insert_all acc (entry k v m) = insert_all (insert k v acc) m

abbrev join_items : Items → Items → Items
join_items nil ys = ys
join_items (cons v xs) ys = cons v (join_items xs ys)

abbrev pub join : Entries → Entries → Entries
join end n = n
join (entry k v m) n = entry k v (join m n)

join_items-append_item :
    (xs : Items) (v : Value) (ys : Items)
    → join_items (append_item xs v) ys ≡ join_items xs (cons v ys)
unfolding append_item
join_items-append_item nil v ys = refl
join_items-append_item (cons w xs) v ys = ap (cons w) (join_items-append_item xs v ys)

join_items-nil : (xs : Items) → join_items xs nil ≡ xs
join_items-nil nil = refl
join_items-nil (cons v xs) = ap (cons v) (join_items-nil xs)

append_items-join_items : (acc xs : Items) → append_items acc xs ≡ join_items acc xs
append_items-join_items acc nil = sym (join_items-nil acc)
append_items-join_items acc (cons v xs) =
    append_items-join_items (append_item acc v) xs ∙ join_items-append_item acc v xs

pub append_items-nil : (xs : Items) → append_items nil xs ≡ xs
append_items-nil xs = append_items-join_items nil xs

-- No key of `m` is in `acc`.
abbrev Disjoint : Entries → Entries → Type 0
Disjoint acc end = Unit
Disjoint acc (entry k v m) = (contains acc k ≡ false) × Disjoint acc m

-- Each key occurs once.
abbrev pub HasDistinctKeys : Entries → Type 0
HasDistinctKeys end = Unit
HasDistinctKeys (entry k v m) = (contains m k ≡ false) × HasDistinctKeys m

contains-insert :
    (acc : Entries) (k j : Bytes) (v : Value)
    → same_bytes j k ≡ false
    → contains (insert k v acc) j ≡ contains acc j
unfolding contains insert
contains-insert end k j v h = ground (arith, same_bytes_iff k j, same_bytes_iff j k)
contains-insert (entry i w m) k j v h = ground (
  arith,
  contains-insert m k j v h,
  same_bytes_iff i k,
  same_bytes_iff i j,
  same_bytes_iff k j,
  same_bytes_iff j k,
)

Disjoint-insert :
    (acc m : Entries) (k : Bytes) (v : Value)
    → Disjoint acc m
    → contains m k ≡ false
    → Disjoint (insert k v acc) m
unfolding contains
Disjoint-insert acc end k v d h = tt
Disjoint-insert acc (entry j w m) k v d h = elim (Bool-cases (same_bytes j k)) [
  | inl e ↦ cc (rw e at h)
  | inr e ↦ (contains-insert acc k j v e ∙ d.0, Disjoint-insert acc m k v d.1 (rw e at h))
]

join-insert :
    (acc m : Entries) (k : Bytes) (v : Value)
    → contains acc k ≡ false
    → join (insert k v acc) m ≡ join acc (entry k v m)
unfolding insert contains
join-insert end m k v h = refl
join-insert (entry j w acc) m k v h = elim (Bool-cases (same_bytes j k)) [
  | inl e ↦ cc (rw e at h)
  | inr e ↦ rw e (ap (entry j w) (join-insert acc m k v (rw e at h)))
]

join-end : (m : Entries) → join m end ≡ m
join-end end = refl
join-end (entry k v m) = ap (entry k v) (join-end m)

insert_all-join :
    (acc m : Entries) → Disjoint acc m → HasDistinctKeys m → insert_all acc m ≡ join acc m
insert_all-join acc end d h = sym (join-end acc)
insert_all-join acc (entry k v m) d h =
    insert_all-join (insert k v acc) m (Disjoint-insert acc m k v d.1 h.0) h.1
    ∙ join-insert acc m k v d.0

Disjoint-end : (m : Entries) → Disjoint end m
unfolding contains
Disjoint-end end = tt
Disjoint-end (entry k v m) = (refl, Disjoint-end m)

pub insert_all-end : (m : Entries) → HasDistinctKeys m → insert_all end m ≡ m
insert_all-end m h = insert_all-join end m (Disjoint-end m) h
