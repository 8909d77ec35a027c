-- ===== src/Command/Handlers/Internal/Operations.antt =====
-- Write of the internal handler, on every branch.
use mesh_cdn.Base.{
  Bool-cases, Option-cases, All, Text, ◌≡◌, refl, sym, ap, ◌∙◌, subst, inl, inr, Bool, Option, none,
  some, List, [], ◌∷◌, arith, ok, err,
}
use mesh_cdn.Base.Words.{IsWord, fields, fields-IsWord}
use mesh_cdn.Peers.{Disk}
use mesh_cdn.I18n.Languages.{parse_lang}
use mesh_cdn.Command.Types.{Command, Error, Effects}
use mesh_cdn.Command.Executor.{Db}
use mesh_cdn.Command.Handlers.{is_placeholder}
use mesh_cdn.Command.Handlers.Settings.{Settings, SettingFaults}
use mesh_cdn.Command.Handlers.Internal.{
  validate_internal, PeerRowFaults, InternalOp, peer_add, peer_remove, set_bot, set_lang, operation,
  join_order_of, first_of, added, removed, add_peer, remove_peer, write_bot, write_lang, Ended,
  write_internal,
}
use mesh_cdn.Command.Handlers.Internal.Changes.{
  Changed, After, add_peer-Changed, remove_peer-Changed, write_bot-Changed, write_lang-Changed,
}

module _ (is_ip : Text → Bool) (quote : Text → Text) (faults : SettingFaults)
    (rows : PeerRowFaults) where
  -- The word that Validate has found.
  validate_internal-word :
      (c : Command)
      → validate_internal is_ip quote c ≡ none
      → (w : Text) × (ws : List Text) × (fields c.params ≡ w ∷ ws)
  unfolding validate_internal
  validate_internal-word c h = go (fields c.params) refl
    where
      go :
          (l : List Text)
          → fields c.params ≡ l
          → (w : Text) × (ws : List Text) × (fields c.params ≡ w ∷ ws)
      go (w ∷ ws) e = (w, ws, e)
      go [] e = elim (Option-cases (operation c.scope)) [
        | inl o ↦ absurd (ground arith)
        | inr (peer_add, o) ↦ absurd (ground arith)
        | inr (peer_remove, o) ↦ absurd (ground arith)
        | inr (set_bot, o) ↦ absurd (ground arith)
        | inr (set_lang, o) ↦ absurd (ground arith)
      ]

  abbrev after_write : Option Disk → Db Settings → Command → Ended is_ip quote faults rows
  after_write = write_internal is_ip quote faults rows

  write_internal_ok :
      (file : Option Disk) (d : Db Settings) (c : Command) (eff : Effects)
      → faults.get_bot_node_ip ≡ none
      → faults.get_language ≡ none
      → (after_write file d c).2 ≡ ok eff
      → (op : InternalOp) × (operation c.scope ≡ some op)
        × After is_ip quote faults rows op
            (first_of (fields c.params))
            (join_order_of (fields c.params))
            file
            d
            (after_write file d c)
  unfolding write_internal
  write_internal_ok file d c eff g l h =
      let w = first_of (fields c.params) in
      let order = join_order_of (fields c.params) in
      elim (Option-cases (operation c.scope)) [
        | inl o ↦ absurd (ground arith)
        | inr (peer_add, o) ↦
            let q : after_write file d c ≡ add_peer is_ip quote faults rows w order file d =
              ground arith in
            (
              peer_add,
              o,
              subst (After is_ip quote faults rows peer_add w order file d) (sym q) (
                  add_peer-Changed is_ip quote faults rows w order file d eff
                    (ap (λ r. r.2) (sym q) ∙ h)),
            )
        | inr (peer_remove, o) ↦
            let q : after_write file d c ≡ remove_peer is_ip quote faults rows w file d =
              ground arith in
            (
              peer_remove,
              o,
              subst (After is_ip quote faults rows peer_remove w order file d) (sym q) (
                  remove_peer-Changed is_ip quote faults rows w order file d eff
                    (ap (λ r. r.2) (sym q) ∙ h)),
            )
        | inr (set_bot, o) ↦
            let q : after_write file d c ≡ write_bot is_ip quote faults rows w file d =
              ground arith in
            (
              set_bot,
              o,
              subst (After is_ip quote faults rows set_bot w order file d) (sym q) (
                  write_bot-Changed is_ip quote faults rows w order file d eff g
                    (ap (λ r. r.2) (sym q) ∙ h)),
            )
        | inr (set_lang, o) ↦
            let q : after_write file d c ≡ write_lang is_ip quote faults rows w file d =
              ground arith in
            (
              set_lang,
              o,
              subst (After is_ip quote faults rows set_lang w order file d) (sym q) (
                  write_lang-Changed is_ip quote faults rows w order file d eff l
                    (ap (λ r. r.2) (sym q) ∙ h)),
            )
      ]

  write_internal_err :
      (file : Option Disk) (d : Db Settings) (c : Command) (x : Error)
      → (after_write file d c).2 ≡ err x
      → (after_write file d c).1 ≡ d
  unfolding write_internal
  write_internal_err file d c x h =
      let w = first_of (fields c.params) in
      elim (Option-cases (operation c.scope)) [
        | inl o ↦ ground arith
        | inr (peer_add, o) ↦ elim (Option-cases (added is_ip w file).1) [
          | inr (y, e) ↦ ground arith
          | inl e ↦ elim (Option-cases rows.insert_peer) [
            | inr (y, f) ↦ ground arith
            | inl f ↦ absurd (ground arith)
          ]
        ]
        | inr (peer_remove, o) ↦ elim (Option-cases (removed w file).1) [
          | inr (y, e) ↦ ground arith
          | inl e ↦ elim (Option-cases rows.delete_peer) [
            | inr (y, f) ↦ ground arith
            | inl f ↦ absurd (ground arith)
          ]
        ]
        | inr (set_bot, o) ↦ elim (Option-cases faults.set_bot_node_ip) [
          | inr (y, f) ↦ ground arith
          | inl f ↦ absurd (ground arith)
        ]
        | inr (set_lang, o) ↦ elim (Bool-cases (is_placeholder w)) [
          | inl p ↦ elim (Option-cases faults.set_language) [
            | inr (y, f) ↦ ground arith
            | inl f ↦ absurd (ground arith)
          ]
          | inr p ↦ elim (Option-cases (parse_lang w)) [
            | inl e ↦ ground arith
            | inr (l, e) ↦ elim (Option-cases faults.set_language) [
              | inr (y, f) ↦ ground arith
              | inl f ↦ absurd (ground arith)
            ]
          ]
        ]
      ]

-- Write of an internal command that Validate accepts finds the word that it reads. If it fails, the
-- database is as before. If it is done, and the settings can be read: peer-add has the IP in the
-- table with the order that was given, leaves the rows of other IPs, and, on a node whose file
-- holds a membership without the largest int as an order, leaves a membership with the IP in it;
-- peer-remove leaves exactly the peers with other IPs, in the table and in the file; set-bot has
-- made the word the bot node, or cleared the override for "-"; set-lang has made it the language,
-- or the default for "-". The first two leave the settings, and the other two the lists of the
-- peers and the setting that is not theirs.
pub write_internal-Changed :
    (is_ip : Text → Bool) (quote : Text → Text) (faults : SettingFaults) (rows : PeerRowFaults)
    (file : Option Disk) (d : Db Settings) (c : Command)
    → validate_internal is_ip quote c ≡ none
    → ((x : Error)
        → (write_internal is_ip quote faults rows file d c).2 ≡ err x
        → (write_internal is_ip quote faults rows file d c).1 ≡ d)
      × ((eff : Effects)
          → (write_internal is_ip quote faults rows file d c).2 ≡ ok eff
          → faults.get_bot_node_ip ≡ none
          → faults.get_language ≡ none
          → (op : InternalOp) × (w : Text) × (ws : List Text) × (operation c.scope ≡ some op)
            × (fields c.params ≡ w ∷ ws)
            × IsWord w
            × Changed faults op w
                (join_order_of (w ∷ ws))
                (file, d)
                (
                  (write_internal is_ip quote faults rows file d c).0,
                  (write_internal is_ip quote faults rows file d c).1,
                ))
write_internal-Changed is_ip quote faults rows file d c v = (
  λ x h. write_internal_err is_ip quote faults rows file d c x h,
  λ eff h g l.
      let (w, ws, e) = validate_internal-word is_ip quote faults rows c v in
      let (op, o, changed) = write_internal_ok is_ip quote faults rows file d c eff g l h in
      (
        op,
        w,
        ws,
        o,
        e,
        (subst (All IsWord) e (fields-IsWord c.params)).0,
        subst
            (λ l.
              Changed faults op (first_of l) (join_order_of l) (file, d)
                (
                  (write_internal is_ip quote faults rows file d c).0,
                  (write_internal is_ip quote faults rows file d c).1,
                ))
            e changed,
      ),
)
