-- ===== src/Snapshot/Exporter/Membership.antt =====
-- The membership that an exported snapshot declares.
use mesh_cdn.Base.{
  ok-injective, ok-ne-err, Result-cases, Result, All, All-of_In, All-append, Text, text, same,
  is_space, ◌≡◌, refl, sym, ap, ◌∙◌, subst, ◌≢◌, inl, inr, Bool, true, false, none, some, List, [],
  ◌∷◌, ◌++◌, map, append-nil, append_assoc, arith, ok, err,
}
use mesh_cdn.Base.Int.{ℤ}
use mesh_cdn.Base.Table.{get, put}
use mesh_cdn.Base.Words.{is_space-IsWord, IsWord, fields}
use mesh_cdn.Peers.{Peer}
use mesh_cdn.Snapshot.{Snapshot, peer_of_fields, collect_peers, or_nil, declared_peers}
use mesh_cdn.Snapshot.Exporter.{
  Query, no_rows, rows, Tables, peer_line, domain_line, object_line, binding_line, setting_lines,
  export_rows, and_then, export_lines, export_snapshot,
}
use mesh_cdn.Base.Time.{Time}
use mesh_cdn.Snapshot.Exporter.Lines.{
  IsSilent, IsObjectRow, IsPeerRow, Absent, pair, collect_peers-append, collect_peers-silent,
  domain_line-IsSilent, binding_line-IsSilent, object_line-IsSilent, setting_lines-IsSilent,
  peer_line-fields, put-absent, get-snoc,
}

-- No IP stands in the list twice.
abbrev pub DistinctRows : List Peer → Type 0
DistinctRows [] = Unit
DistinctRows (p ∷ ps) = All (λ (q : Peer). p.ip ≢ q.ip) ps × DistinctRows ps

collect_peers-cons :
    (out : List (Text × ℤ)) (line ip : Text) (n : ℤ) (lines : List Text)
    → peer_of_fields (fields line) ≡ some (ip, n)
    → collect_peers out (line ∷ lines) ≡ collect_peers (put ip n out) lines
unfolding collect_peers
collect_peers-cons out line ip n lines e = ground (arith, e)

Absent-snoc :
    (out : List (Text × ℤ)) (p : Peer) (ps : List Peer)
    → All (Absent out) ps
    → All (λ (q : Peer). p.ip ≢ q.ip) ps
    → All (Absent (out ++ pair p ∷ [])) ps
Absent-snoc out p [] h d = tt
Absent-snoc out p (q ∷ ps) h d =
    (get-snoc p.ip q.ip p.join_order out h.0 d.0, Absent-snoc out p ps h.1 d.1)

collect_peers-peers :
    (out : List (Text × ℤ)) (ps : List Peer)
    → All IsPeerRow ps
    → All (Absent out) ps
    → DistinctRows ps
    → collect_peers out (map peer_line ps) ≡ out ++ map pair ps
collect_peers-peers out [] r a d = unfold collect_peers in sym (append-nil out)
collect_peers-peers out (p ∷ ps) r a d =
    collect_peers-cons out (peer_line p) p.ip p.join_order (map peer_line ps)
      (peer_line-fields p r.0)
    ∙ ap (λ o. collect_peers o (map peer_line ps)) (put-absent p.ip p.join_order out a.0)
    ∙ collect_peers-peers (out ++ pair p ∷ []) ps r.1 (Absent-snoc out p ps a.1 d.0) d.1
    ∙ append_assoc out (pair p ∷ []) (map pair ps)

-- Lines that start with those of the peers and say nothing more of the membership.
abbrev StartsWith : List Peer → List Text → Type 0
StartsWith ps lines = (rest : List Text) × (lines ≡ map peer_line ps ++ rest) × All IsSilent rest

StartsWith-append :
    (ps : List Peer) (lines more : List Text)
    → StartsWith ps lines
    → All IsSilent more
    → StartsWith ps (lines ++ more)
StartsWith-append ps lines more (rest, e, h) m = (
  rest ++ more,
  ap (λ l. l ++ more) e ∙ append_assoc (map peer_line ps) rest more,
  All-append IsSilent rest more h m,
)

All-of_map :
    {A : Type 0} (P : A → Type 0) (line : A → Text) (l : List A)
    → ((a : A) → P a → IsSilent (line a))
    → All P l
    → All IsSilent (map line l)
All-of_map P line [] f h = tt
All-of_map P line (a ∷ l) f h = (f a h.0, All-of_map P line l f h.1)

-- The rows of a query that satisfy P.
abbrev pub Rows : {A : Type 0} → (A → Type 0) → Query A → Type 0
Rows P (no_rows e) = Unit
Rows P (rows l e) = All P l

export_rows-StartsWith :
    {A : Type 0} (P : A → Type 0) (optional : Bool) (line : A → Text) (q : Query A) (ps : List Peer)
    (lines out : List Text)
    → ((a : A) → P a → IsSilent (line a))
    → Rows P q
    → StartsWith ps lines
    → export_rows optional line q lines ≡ ok out
    → StartsWith ps out
export_rows-StartsWith P true line (no_rows e) ps lines out f r s h =
    subst (StartsWith ps) (ok-injective h) s
export_rows-StartsWith P false line (no_rows e) ps lines out f r s h = absurd (ok-ne-err (sym h))
export_rows-StartsWith P optional line (rows l (some e)) ps lines out f r s h =
    absurd (ok-ne-err (sym h))
export_rows-StartsWith P optional line (rows l none) ps lines out f r s h =
    subst (StartsWith ps) (ok-injective h)
      (StartsWith-append ps lines (map line l) s (All-of_map P line l f r))

and_then-ok :
    (r : Result Text (List Text)) (next : List Text → Result Text (List Text)) (out : List Text)
    → and_then r next ≡ ok out
    → (mid : List Text) × (r ≡ ok mid) × (next mid ≡ ok out)
and_then-ok (err e) next out h = absurd (ok-ne-err (sym h))
and_then-ok (ok mid) next out h = (mid, refl, h)

pub set_bot-IsWord : IsWord (text "set-bot")
unfolding is_space
set_bot-IsWord = is_space-IsWord _ _ refl

pub set_lang-IsWord : IsWord (text "set-lang")
unfolding is_space
set_lang-IsWord = is_space-IsWord _ _ refl

All-rows : {A : Type 0} (P : A → Type 0) (q : Query A) → ((a : A) → P a) → Rows P q
All-rows P (no_rows e) f = tt
All-rows P (rows l e) f = All-of_In P l (λ a m. f a)

export_lines-StartsWith :
    (t : Tables) (ps : List Peer) (out : List Text)
    → t.peers ≡ rows ps none
    → Rows IsObjectRow t.rule_objects
    → export_lines t ≡ ok out
    → StartsWith ps out
unfolding same export_lines
export_lines-StartsWith t ps out q objects h =
    let (l3, h3, e4) = and_then-ok _ (export_rows true binding_line t.bindings) out h in
    let (l2, h2, e3) = and_then-ok _ (export_rows true object_line t.rule_objects) l3 h3 in
    let settings = λ (l : List Text).
      (l ++ setting_lines (text "set-bot") t.bot_node)
      ++ setting_lines (text "set-lang") t.language in
    let (l1, h1, e2) =
      and_then-ok _ (λ l. export_rows false domain_line t.domains (settings l)) l2 h2 in
    let first : map peer_line ps ≡ l1 =
      ok-injective (sym (ap (λ r. export_rows true peer_line r []) q) ∙ h1) in
    let s0 : StartsWith ps l1 = ([], sym first ∙ sym (append-nil (map peer_line ps)), tt) in
    let s1 : StartsWith ps (settings l1) =
      StartsWith-append ps (l1 ++ setting_lines (text "set-bot") t.bot_node)
        (setting_lines (text "set-lang") t.language)
        (StartsWith-append ps l1 (setting_lines (text "set-bot") t.bot_node) s0
          (setting_lines-IsSilent (text "set-bot") t.bot_node set_bot-IsWord refl))
        (setting_lines-IsSilent (text "set-lang") t.language set_lang-IsWord refl) in
    let s2 =
      export_rows-StartsWith (λ r. Unit) false domain_line t.domains ps (settings l1) l2
        (λ r u. domain_line-IsSilent r) (All-rows (λ r. Unit) t.domains (λ r. tt)) s1 e2 in
    let s3 =
      export_rows-StartsWith IsObjectRow true object_line t.rule_objects ps l2 l3
        object_line-IsSilent objects s2 e3 in
    export_rows-StartsWith (λ r. Unit) true binding_line t.bindings ps l3 out
      (λ r u. binding_line-IsSilent r) (All-rows (λ r. Unit) t.bindings (λ r. tt)) s3 e4

pub export_snapshot-commands :
    (t : Tables) (now : Time) (program : Text) (snap : Snapshot)
    → export_snapshot t now program ≡ ok snap
    → export_lines t ≡ ok snap.commands
unfolding export_snapshot
export_snapshot-commands t now program snap h = elim (Result-cases (export_lines t)) [
  | inl (lines, e) ↦ elim (Result-cases t.config_version) [
    | inl (v, f) ↦ ground arith
    | inr (x, f) ↦ absurd (ground arith)
  ]
  | inr (x, e) ↦ absurd (ground arith)
]

Absent-all : (ps : List Peer) → All (Absent []) ps
unfolding get
Absent-all [] = tt
Absent-all (p ∷ ps) = (refl, Absent-all ps)

pub export_snapshot-declared_peers :
    (t : Tables) (ps : List Peer) (now : Time) (program : Text) (snap : Snapshot)
    → t.peers ≡ rows ps none
    → All IsPeerRow ps
    → DistinctRows ps
    → Rows IsObjectRow t.rule_objects
    → export_snapshot t now program ≡ ok snap
    → declared_peers snap ≡ or_nil (map pair ps)
unfolding declared_peers
export_snapshot-declared_peers t ps now program snap q r d objects h =
    let (rest, e, silent) =
      export_lines-StartsWith t ps snap.commands q objects
        (export_snapshot-commands t now program snap h) in
    ap or_nil (
      ap (collect_peers []) e
      ∙ collect_peers-append [] (map peer_line ps) rest
      ∙ collect_peers-silent (collect_peers [] (map peer_line ps)) rest silent
      ∙ collect_peers-peers [] ps r (Absent-all ps) d)
