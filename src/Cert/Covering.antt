-- ===== src/Cert/Covering.antt =====
-- Covers, against what its comment says of names and wildcards.

use mesh_cdn.Base.{
  leb, Bool-cases, length, take, drop, any, length-append, In, take-append_length,
  drop-append_length, Text, text, same, same→eq, same_refl, eq→same, is_empty, is_empty-false,
  has_prefix, has_prefix→append, has_suffix, contains, ℕ, zero, suc, ◌-◌, ◌≡◌, refl, sym, ap, ◌∙◌,
  subst, ◌≢◌, ◌↔◌, ◌⊎◌, inl, inr, Bool, true, false, not, ◌&&◌, ◌||◌, List, [], ◌∷◌, ◌++◌, arith,
}
use mesh_cdn.Cert.{CertMeta, in_front, wildcard_covers, san_covers, covers}

-- The text has the form of one label, a dot and `rest`.
abbrev pub OneLabel : Text → Text → Type 0
OneLabel rest target =
    (label : Text) × (label ≢ [])
    × (contains label 0x2E ≡ false)
    × (target ≡ label ++ (0x2E ∷ rest))

-- The entry is the name itself, or "*." and the rest of a name with one more label in front.
abbrev pub Names : Text → Text → Type 0
Names san target =
    (san ≡ target) ⊎ ((rest : Text) × (san ≡ text "*." ++ rest) × OneLabel rest target)

take-append-drop : (n : ℕ) (s : Text) → take n s ++ drop n s ≡ s
take-append-drop zero s = refl
take-append-drop (suc n) [] = refl
take-append-drop (suc n) (c ∷ s) = ap (λ l. c ∷ l) (take-append-drop n s)

in_front-append : (s t : Text) → (in_front (length t) (s ++ t) ≡ s) × (has_suffix (s ++ t) t ≡ true)
in_front-append s t =
    let e : length (s ++ t) - length t ≡ length s = omega (arith, length-append s t) in
    let fits : leb (length t) (length (s ++ t)) ≡ true = ground (arith, length-append s t) in
    (rw e (take-append_length s t), rw (fits, e, drop-append_length s t) (same_refl t))

-- What the three tests of `wildcard_covers` say.
wildcard_covers-tests :
    (suffix target : Text)
    → wildcard_covers suffix target ≡ true
    → (has_suffix target suffix ≡ true)
      × (is_empty (in_front (length suffix) target) ≡ false)
      × (contains (in_front (length suffix) target) 0x2E ≡ false)
unfolding wildcard_covers
wildcard_covers-tests suffix target h = ground arith

has_suffix→drop : (s t : Text) → has_suffix s t ≡ true → drop (length s - length t) s ≡ t
has_suffix→drop s t h = same→eq (drop (length s - length t) s) t (ground arith)

wildcard_covers→OneLabel :
    (rest target : Text) → wildcard_covers (0x2E ∷ rest) target ≡ true → OneLabel rest target
wildcard_covers→OneLabel rest target h =
    let n = length target - length {A = ℕ} (0x2E ∷ rest) in
    let (s, ne, nodot) = wildcard_covers-tests (0x2E ∷ rest) target h in
    (
      take n target,
      λ q. cc,
      nodot,
      sym (take-append-drop n target)
          ∙ ap (λ l. take n target ++ l) (has_suffix→drop target (0x2E ∷ rest) s),
    )

OneLabel→wildcard_covers :
    (rest target : Text) → OneLabel rest target → wildcard_covers (0x2E ∷ rest) target ≡ true
unfolding wildcard_covers
OneLabel→wildcard_covers rest target (label, ne, dot, e) =
    let (f, s) = in_front-append label (0x2E ∷ rest) in
    rw (e, f, s, dot) (ap (λ b. not b && true) (is_empty-false label ne))

append→has_prefix : (p s : Text) → has_prefix (p ++ s) p ≡ true
unfolding same
append→has_prefix [] s = refl
append→has_prefix (a ∷ p) s = rw (append→has_prefix p s) (same_refl (a ∷ []))

bool_or_true : (b : Bool) → (b || true) ≡ true
bool_or_true false = refl
bool_or_true true = refl

san_covers_iff : (target san : Text) → (san_covers target san ≡ true) ↔ Names san target
unfolding san_covers
san_covers_iff target san = (to, from)
  where
    to : san_covers target san ≡ true → Names san target
    to h = elim (Bool-cases (same san target)) [
      | inl e ↦ inl (same→eq san target e)
      | inr e ↦
          let (p, w) : (has_prefix san (text "*.") ≡ true)
              × (wildcard_covers (drop 1 san) target ≡ true) =
            ground arith in
          let q = has_prefix→append san (text "*.") p in
          let rest = drop 2 san in
          inr (
            rest,
            q,
            wildcard_covers→OneLabel rest target
                (subst (λ s. wildcard_covers (drop 1 s) target ≡ true) q w),
          )
    ]

    from : Names san target → san_covers target san ≡ true
    from (inl e) = ground (arith, eq→same san target e)
    from (inr (rest, e, one)) = rw (e, OneLabel→wildcard_covers rest target one) (bool_or_true _)

any→In :
    (test : Text → Bool) (xs : List Text)
    → any test xs ≡ true
    → (x : Text) × In x xs × (test x ≡ true)
any→In test [] h = cc
any→In test (x ∷ xs) h = elim (Bool-cases (test x)) [
  | inl e ↦ (x, inl refl, e)
  | inr e ↦ let (y, m, t) = any→In test xs (ground arith) in (y, inr m, t)
]

In→any :
    (test : Text → Bool) (x : Text) (xs : List Text) → In x xs → test x ≡ true → any test xs ≡ true
In→any test x [] m t = absurd m
In→any test x (y ∷ xs) (inl e) t = rw (sym e, t) refl
In→any test x (y ∷ xs) (inr m) t = rw (In→any test x xs m t) (bool_or_true (test y))

-- A certificate covers a name exactly when its subject is the name, or an entry of its SAN list is
-- the name or is "*." followed by what is left of the name behind its first label and dot: a label
-- that is not empty and has no dot in it.
pub covers_iff :
    (c : CertMeta) (target : Text)
    → (covers c target ≡ true)
      ↔ ((c.subject ≡ target) ⊎ ((san : Text) × In san c.san × Names san target))
unfolding covers
covers_iff c target = (to, from)
  where
    to :
        covers c target ≡ true
        → (c.subject ≡ target) ⊎ ((san : Text) × In san c.san × Names san target)
    to h = elim (Bool-cases (same c.subject target)) [
      | inl e ↦ inl (same→eq c.subject target e)
      | inr e ↦
          let (san, m, t) = any→In (san_covers target) c.san (ground arith) in
          inr (san, m, (san_covers_iff target san).0 t)
    ]

    from :
        (c.subject ≡ target) ⊎ ((san : Text) × In san c.san × Names san target)
        → covers c target ≡ true
    from (inl e) = ground (arith, eq→same c.subject target e)
    from (inr (san, m, n)) =
        rw (In→any (san_covers target) san c.san m ((san_covers_iff target san).1 n))
          (bool_or_true (same c.subject target))
