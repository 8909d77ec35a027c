-- ===== src/Snapshot/Exporter/Lines.antt =====
-- What DeclaredPeers reads of the lines of an export.
use mesh_cdn.Base.{
  Option-cases, All, Text, text, same, same-false, join, is_space, ℕ, ◌≤◌, ◌≡◌, refl, sym, ap, ◌∙◌,
  subst, ◌≢◌, inl, inr, false, Option, none, some, List, [], ◌∷◌, ◌++◌, arith,
}
use mesh_cdn.Base.Decimal.{decimal, decimal_ℤ, int_max, parse_int-decimal}
use mesh_cdn.Base.Int.{ℤ, pos}
use mesh_cdn.Base.Numerals.{decimal-IsWord}
use mesh_cdn.Base.Table.{get, put}
use mesh_cdn.Base.Words.{is_space-IsWord, IsWord, fields, fields-join, fields-blank}
use mesh_cdn.Peers.{Peer}
use mesh_cdn.Snapshot.{peer_of_fields, collect_peers}
use mesh_cdn.Snapshot.Exporter.{
  spaced, peer_line, domain_line, object_line, binding_line, setting_lines,
}

-- The line declares no peer.
abbrev pub IsSilent : Text → Type 0
IsSilent line = peer_of_fields (fields line) ≡ none

pub collect_peers-append :
    (out : List (Text × ℤ)) (xs ys : List Text)
    → collect_peers out (xs ++ ys) ≡ collect_peers (collect_peers out xs) ys
unfolding collect_peers
collect_peers-append out [] ys = refl
collect_peers-append out (x ∷ xs) ys = elim (Option-cases (peer_of_fields (fields x))) [
  | inl e ↦ ground (arith, e, collect_peers-append out xs ys)
  | inr ((ip, n), e) ↦ ground (arith, e, collect_peers-append (put ip n out) xs ys)
]

pub collect_peers-silent :
    (out : List (Text × ℤ)) (xs : List Text) → All IsSilent xs → collect_peers out xs ≡ out
unfolding collect_peers
collect_peers-silent out [] h = refl
collect_peers-silent out (x ∷ xs) h = ground (arith, h.0, collect_peers-silent out xs h.1)

other_type :
    (w kind : Text) (l : List Text)
    → same kind (text "internal") ≡ false
    → peer_of_fields (w ∷ kind ∷ l) ≡ none
other_type w kind [] h = refl
other_type w kind (a ∷ []) h = refl
other_type w kind (a ∷ b ∷ []) h = refl
other_type w kind (a ∷ b ∷ c ∷ l) h = ground (arith, h)

other_verb :
    (w kind verb : Text) (l : List Text)
    → same verb (text "peer-add") ≡ false
    → peer_of_fields (w ∷ kind ∷ verb ∷ l) ≡ none
other_verb w kind verb [] h = refl
other_verb w kind verb (b ∷ []) h = refl
other_verb w kind verb (b ∷ c ∷ l) h = ground (arith, h)

slash_w-IsWord : IsWord (text "/w")
unfolding is_space
slash_w-IsWord = is_space-IsWord _ _ refl

-- A command of another type than `internal`.
spaced-IsSilent :
    (kind rest : Text)
    → IsWord kind
    → same kind (text "internal") ≡ false
    → IsSilent (text "/w" ++ (text " " ++ (kind ++ (text " " ++ rest))))
spaced-IsSilent kind rest w h =
    ap peer_of_fields (
      fields-blank (text "/w") (kind ++ (text " " ++ rest)) slash_w-IsWord
      ∙ ap (λ l. text "/w" ∷ l) (fields-blank kind rest w))
    ∙ other_type (text "/w") kind (fields rest) h

pub domain_line-IsSilent : (row : Text × Text) → IsSilent (domain_line row)
unfolding join same is_space
domain_line-IsSilent (scope, origin) =
    spaced-IsSilent (text "domain") (scope ++ (text " " ++ origin)) (is_space-IsWord _ _ refl) refl

pub binding_line-IsSilent : (row : Text × Text × Text) → IsSilent (binding_line row)
unfolding join same is_space
binding_line-IsSilent (scope, kind, name) =
    spaced-IsSilent (text "bind") (scope ++ (text " " ++ (kind ++ (text ":" ++ name))))
      (is_space-IsWord _ _ refl) refl

-- The type of a rule object is a word, and not that of the internal commands.
abbrev pub IsObjectRow : Text × Text × Text → Type 0
IsObjectRow (kind, name, params) = IsWord kind × (same kind (text "internal") ≡ false)

pub object_line-IsSilent : (row : Text × Text × Text) → IsObjectRow row → IsSilent (object_line row)
unfolding join
object_line-IsSilent (kind, name, params) h =
    spaced-IsSilent kind (name ++ (text " " ++ params)) h.0 h.1

pub internal-IsWord : IsWord (text "internal")
unfolding is_space
internal-IsWord = is_space-IsWord _ _ refl

pub setting_lines-IsSilent :
    (verb : Text) (value : Option Text)
    → IsWord verb
    → same verb (text "peer-add") ≡ false
    → All IsSilent (setting_lines verb value)
unfolding join
setting_lines-IsSilent verb none w h = tt
setting_lines-IsSilent verb (some []) w h = tt
setting_lines-IsSilent verb (some (c ∷ v)) w h = (
  ap peer_of_fields (
        fields-blank (text "/w") (text "internal" ++ (text " " ++ (verb ++ (text " " ++ (c ∷ v)))))
          slash_w-IsWord
        ∙ ap (λ l. text "/w" ∷ l)
            (fields-blank (text "internal") (verb ++ (text " " ++ (c ∷ v))) internal-IsWord
              ∙ ap (λ l. text "internal" ∷ l) (fields-blank verb (c ∷ v) w)))
      ∙ other_verb (text "/w") (text "internal") verb (fields (c ∷ v)) h,
  tt,
)

-- A row of the table of the peers: a word, and a join order that is not negative.
pub record IsPeerRow (p : Peer) : Type 0 where
  pub ip_word : IsWord p.ip
  pub number : ℕ
  pub order : p.join_order ≡ pos number
  pub fits : number ≤ int_max

pub peer_add-IsWord : IsWord (text "peer-add")
unfolding is_space
peer_add-IsWord = is_space-IsWord _ _ refl

pub peer_line-fields :
    (p : Peer) → IsPeerRow p → peer_of_fields (fields (peer_line p)) ≡ some (p.ip, p.join_order)
unfolding same
peer_line-fields p h =
    subst
      (λ o.
        peer_of_fields (
          fields (spaced (text "/w" ∷ text "internal" ∷ text "peer-add" ∷ p.ip ∷ decimal_ℤ o ∷ [])))
        ≡ some (p.ip, o))
      (sym h.order)
      (unfold decimal_ℤ in
        ap peer_of_fields (
          fields-join (text "/w") (text "internal" ∷ text "peer-add" ∷ p.ip ∷ decimal h.number ∷ [])
            slash_w-IsWord
            (internal-IsWord, (peer_add-IsWord, (h.ip_word, (decimal-IsWord h.number, tt)))))
        ∙ rw (parse_int-decimal h.number h.fits) refl)

abbrev pub pair : Peer → Text × ℤ
pair p = (p.ip, p.join_order)

abbrev pub Absent : List (Text × ℤ) → Peer → Type 0
Absent out p = get p.ip out ≡ none

pub put-absent :
    (k : Text) (v : ℤ) (m : List (Text × ℤ)) → get k m ≡ none → put k v m ≡ m ++ (k, v) ∷ []
unfolding get put
put-absent k v [] h = refl
put-absent k v ((j, w) ∷ m) h = ground (arith, put-absent k v m)

pub get-snoc :
    (k j : Text) (v : ℤ) (m : List (Text × ℤ))
    → get j m ≡ none
    → k ≢ j
    → get j (m ++ (k, v) ∷ []) ≡ none
unfolding get
get-snoc k j v [] h n = rw (same-false k j n) refl
get-snoc k j v ((i, w) ∷ m) h n = ground (arith, get-snoc k j v m, n)
