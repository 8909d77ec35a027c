-- ===== src/Logs/Sums.antt =====
-- What the buckets hold for a key in all.
use mesh_cdn.Base.{
  if◌then◌else◌, Bool-cases, Option-cases, filter, Text, same, same_iff, ℕ, ◌+◌, ◌≡◌, refl, sym, ap,
  ◌∙◌, ◌↔◌, inl, inr, true, false, not, Option, none, some, List, [], ◌∷◌, ◌++◌, arith,
}
use mesh_cdn.Base.Int.{ℤ, beq_ℤ_iff, ltb_ℤ}
use mesh_cdn.Logs.{StatKey, StatDelta, Buckets, same_key, plus, add_stat, insert_stats}
use mesh_cdn.Logs.Collector.{LogLine, bucket, accumulate, accumulate_all}

-- A sum of the deltas, such as that of the hits or that of the bytes.
abbrev pub IsSum : (StatDelta → ℕ) → Type 0
IsSum f = (a b : StatDelta) → f (plus a b) ≡ f a + f b

-- The part of a delta of the key `j` in the sum for `k`.
abbrev pub part : (StatDelta → ℕ) → StatKey → StatKey → StatDelta → ℕ
part f k j d = if same_key k j then f d else 0

unfoldable pub total : (StatDelta → ℕ) → StatKey → Buckets → ℕ
unfolding same
total f k [] = 0
total f k ((j, d) ∷ rows) = part f k j d + total f k rows

same_key_iff : (j k : StatKey) → (same_key j k ≡ true) ↔ (j ≡ k)
same_key_iff j k =
    ground
      (arith, same_iff j.domain k.domain, beq_ℤ_iff j.minute k.minute, beq_ℤ_iff j.status k.status)

module _ (f : StatDelta → ℕ) (sum : IsSum f) (k : StatKey) where
  pub total-add_stat :
      (j : StatKey) (d : StatDelta) (rows : Buckets)
      → total f k (add_stat j d rows) ≡ part f k j d + total f k rows
  unfolding total add_stat
  total-add_stat j d [] = refl
  total-add_stat j d ((i, e) ∷ rows) = elim (Bool-cases (same_key j i)) [
    | inl s ↦
        let q : j ≡ i = (same_key_iff j i).0 s in
        let p : part f k j d ≡ part f k i d = ap (λ x. part f k x d) q in
        let a = sum e d in ground (arith, s, p, a)
    | inr s ↦ let i = total-add_stat j d rows in ground (arith, s, i)
  ]

  pub total-insert_stats :
      (insert : StatKey → Option Text) (deltas rows : Buckets)
      → (insert_stats insert deltas rows).1 ≡ none
      → total f k (insert_stats insert deltas rows).0 ≡ total f k deltas + total f k rows
  unfolding total insert_stats
  total-insert_stats insert [] rows h = ground arith
  total-insert_stats insert ((j, d) ∷ deltas) rows h = elim (Option-cases (insert j)) [
    | inr (e, m) ↦ absurd (ground arith)
    | inl m ↦
        let i = total-insert_stats insert deltas (add_stat j d rows) in
        let a = total-add_stat j d rows in ground (arith, m, i, a)
  ]

-- The first list has the entries of the second in another order.
pub data Reordered : Buckets → Buckets → Type 0 where
  same_order : (xs : Buckets) → Reordered xs xs
  under :
      (b : StatKey × StatDelta) {xs ys : Buckets} → Reordered xs ys → Reordered (b ∷ xs) (b ∷ ys)
  swapped : (a b : StatKey × StatDelta) (xs : Buckets) → Reordered (a ∷ b ∷ xs) (b ∷ a ∷ xs)
  after : {xs ys zs : Buckets} → Reordered xs ys → Reordered ys zs → Reordered xs zs

pub total-Reordered :
    (f : StatDelta → ℕ) (k : StatKey) {xs ys : Buckets}
    → Reordered xs ys
    → total f k xs ≡ total f k ys
unfolding total
total-Reordered f k (same_order xs) = refl
total-Reordered f k (under b p) = let i = total-Reordered f k p in omega (arith, i)
total-Reordered f k (swapped a b xs) = omega arith
total-Reordered f k (after p q) = total-Reordered f k p ∙ total-Reordered f k q

-- Rows of earlier minutes do not count.
pub total-filter :
    (f : StatDelta → ℕ) (k : StatKey) (before : ℤ) (rows : Buckets)
    → ltb_ℤ k.minute before ≡ false
    → total f k (filter (λ r. not (ltb_ℤ r.0.minute before)) rows) ≡ total f k rows
unfolding total
total-filter f k before [] h = refl
total-filter f k before ((j, d) ∷ rows) h = elim (Bool-cases (ltb_ℤ j.minute before)) [
  | inr e ↦ rw e (ap (λ n. part f k j d + n) (total-filter f k before rows h))
  | inl e ↦
      let q : same_key k j ≡ false = elim (Bool-cases (same_key k j)) [
        | inr n ↦ n
        | inl m ↦
            let t : ltb_ℤ k.minute before ≡ ltb_ℤ j.minute before =
              ap (λ (x : StatKey). ltb_ℤ x.minute before) ((same_key_iff k j).0 m) in
            absurd (let z : true ≡ false = sym e ∙ sym t ∙ h in cc)
      ] in
      let i = total-filter f k before rows h in rw (e, q) (omega (arith, i))
]

module _ (decode : Text → Option LogLine) (parse_time : Text → Option ℕ) (f : StatDelta → ℕ)
    (k : StatKey) where
  -- What a line adds to the bucket of the key.
  unfoldable pub worth : Text → ℕ
  unfolding bucket same
  worth raw = elim (bucket decode parse_time raw) [ none ↦ 0 | some (j, d) ↦ part f k j d ]

  -- What the lines add to it.
  unfoldable pub tally : List Text → ℕ
  unfolding worth
  tally [] = 0
  tally (raw ∷ lines) = worth raw + tally lines

  pub tally-append : (xs ys : List Text) → tally (xs ++ ys) ≡ tally xs + tally ys
  unfolding tally
  tally-append [] ys = ground arith
  tally-append (x ∷ xs) ys = let i = tally-append xs ys in omega (arith, i)

  total-accumulate :
      IsSum f
      → (deltas : Buckets) (raw : Text)
      → total f k (accumulate decode parse_time deltas raw) ≡ total f k deltas + worth raw
  unfolding worth
  total-accumulate sum deltas raw = elim (Option-cases (bucket decode parse_time raw)) [
    | inl n ↦ let w : worth raw ≡ 0 = rw (n, worth) refl in rw (n, accumulate) (omega (arith, w))
    | inr ((j, d), m) ↦
        let a = total-add_stat f sum k j d deltas in
        let w : worth raw ≡ part f k j d = rw (m, worth) refl in
        rw (m, accumulate) (omega (arith, a, w))
  ]

  pub total-accumulate_all :
      IsSum f
      → (deltas : Buckets) (lines : List Text)
      → total f k (accumulate_all decode parse_time deltas lines) ≡ total f k deltas + tally lines
  unfolding tally accumulate_all
  total-accumulate_all sum deltas [] = ground arith
  total-accumulate_all sum deltas (raw ∷ lines) =
      let i = total-accumulate_all sum (accumulate decode parse_time deltas raw) lines in
      let a = total-accumulate sum deltas raw in i ∙ omega (arith, a)
