-- ===== src/Command/Types/Merge.antt =====
-- The laws of Effects.Merge that the comment on it names.
use mathlib.Core.List.{append_assoc, append-nil}
use mesh_cdn.Base.{Text, ◌≡◌, refl, [], ◌∷◌, arith}
use mesh_cdn.Command.Types.{Effects, no_effects, join_messages, merge}

join_messages_assoc :
    (a b c : Text) → join_messages (join_messages a b) c ≡ join_messages a (join_messages b c)
join_messages_assoc a b [] = refl
join_messages_assoc a [] (z ∷ c) = refl
join_messages_assoc [] (y ∷ b) (z ∷ c) = refl
join_messages_assoc (x ∷ a) (y ∷ b) (z ∷ c) = rw append_assoc

-- Merging is associative, and merging into or with no effects changes nothing: the aggregate of a
-- batch depends on the order of its commands and not on how they are grouped.
pub merge_assoc :
    (a b c : Effects)
    → (merge (merge a b) c ≡ merge a (merge b c))
      × (merge a no_effects ≡ a)
      × (merge no_effects a ≡ a)
unfolding merge
merge_assoc a b c = (
  ground (
    arith,
    join_messages_assoc a.user_message b.user_message c.user_message,
    append_assoc a.needs_cert_reselect b.needs_cert_reselect c.needs_cert_reselect,
    append_assoc a.event_notifications b.event_notifications c.event_notifications,
    append_assoc a.port_protocol_bindings b.port_protocol_bindings c.port_protocol_bindings,
  ),
  simp append-nil,
  ground arith,
)
