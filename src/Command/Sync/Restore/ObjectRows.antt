-- ===== src/Command/Sync/Restore/ObjectRows.antt =====
-- Statements on the table of objects leave one row for each type and name.
use mesh_cdn.Base.{
  Bool-cases, filter, All, All-filter, same→eq, same_iff, ◌≡◌, subst, inl, inr, Bool, false, List,
  [], ◌∷◌, arith,
}
use mesh_cdn.Command.Handlers.{ObjectRow}
use mesh_cdn.Command.Handlers.Objects.{is_object, upsert_object}
use mesh_cdn.Command.Sync.Restore.{IsKeyed}

All-upsert_object :
    (P : ObjectRow → Type 0) (o : ObjectRow) (xs : List ObjectRow)
    → P o
    → All P xs
    → All P (upsert_object o xs)
unfolding upsert_object
All-upsert_object P o [] p h = (p, tt)
All-upsert_object P o (x ∷ xs) p h = elim (Bool-cases (is_object o.type o.name x)) [
  | inl e ↦ rw e (p, h.1)
  | inr e ↦ rw e (h.0, All-upsert_object P o xs p h.1)
]

-- Whether two rows have one key does not depend on their order.
other_key :
    (o x : ObjectRow) → is_object o.type o.name x ≡ false → is_object x.type x.name o ≡ false
other_key o x e = ground (
  arith,
  same_iff x.type o.type,
  same_iff o.type x.type,
  same_iff x.name o.name,
  same_iff o.name x.name,
)

pub upsert_object-IsKeyed :
    (o : ObjectRow) (xs : List ObjectRow) → IsKeyed xs → IsKeyed (upsert_object o xs)
unfolding upsert_object
upsert_object-IsKeyed o [] h = (tt, tt)
upsert_object-IsKeyed o (x ∷ xs) h = elim (Bool-cases (is_object o.type o.name x)) [
  | inl e ↦
      let t = same→eq x.type o.type (ground arith) in
      let n = same→eq x.name o.name (ground arith) in
      rw e (
        subst (λ m. All (λ y. is_object o.type m y ≡ false) xs) n
            (subst (λ k. All (λ y. is_object k x.name y ≡ false) xs) t h.0),
        h.1,
      )
  | inr e ↦ rw e (
    All-upsert_object (λ y. is_object x.type x.name y ≡ false) o xs (other_key o x e) h.0,
    upsert_object-IsKeyed o xs h.1,
  )
]

pub filter-IsKeyed :
    (p : ObjectRow → Bool) (xs : List ObjectRow) → IsKeyed xs → IsKeyed (filter p xs)
filter-IsKeyed p [] h = tt
filter-IsKeyed p (x ∷ xs) h = elim (Bool-cases (p x)) [
  | inl e ↦ rw e (All-filter _ p xs h.0, filter-IsKeyed p xs h.1)
  | inr e ↦ rw e (filter-IsKeyed p xs h.1)
]
