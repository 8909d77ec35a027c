-- ===== src/Cert/Renew/System/Tracking.antt =====
-- The keys that are pending, against the tasks that wait, run or end.
use mesh_cdn.Base.{
  length, filter, any, length-append, Text, same, same_iff, ℕ, suc, ◌+◌, ◌≤◌, ◌≡◌, refl, ap, Bool,
  true, false, not, ◌&&◌, List, [], ◌∷◌, ◌++◌, arith,
}
use mesh_cdn.Cert.Renew.Worker.{Task, Worker, key, is_pending, queue_size, enqueue, clear_pending}

abbrev pub one_if : Bool → ℕ
one_if true = 1
one_if false = 0

-- How many of the tasks have the key.
unfoldable pub count : Text → List Task → ℕ
count k [] = 0
count k (t ∷ ts) = one_if (same k (key t)) + count k ts

pub count-append : (k : Text) (xs ys : List Task) → count k (xs ++ ys) ≡ count k xs + count k ys
unfolding count
count-append k [] ys = omega arith
count-append k (x ∷ xs) ys = omega (arith, count-append k xs ys)

pub count-middle :
    (k : Text) (front : List Task) (t : Task) (back : List Task)
    → count k (front ++ (t ∷ back)) ≡ count k (front ++ back) + one_if (same k (key t))
unfolding count
count-middle k front t back =
    omega (arith, count-append k front (t ∷ back), count-append k front back)

-- The tasks that are not done are those whose keys are pending, and each is there once.
abbrev pub IsTracked : Worker → List Task → List Task → Type 0
IsTracked w running ending =
    (k : Text) → count k w.queue + count k running + count k ending ≡ one_if (is_pending k w)

pub any-clear :
    (k x : Text) (ks : List Text)
    → any (same k) (filter (λ j. not (same j x)) ks) ≡ (any (same k) ks && not (same k x))
any-clear k x [] = refl
any-clear k x (j ∷ ks) = ground (arith, any-clear k x ks, same_iff j x, same_iff k j, same_iff k x)

pub enqueue-IsTracked :
    (t : Task) (w : Worker) (running ending : List Task)
    → IsTracked w running ending
    → IsTracked (enqueue t w).0 running ending
unfolding enqueue count
enqueue-IsTracked t w running ending h k =
    ground (arith, h k, same_iff k (key t), count-append k w.queue (t ∷ []))

pub enqueue-bounded :
    (t : Task) (w : Worker)
    → length w.queue ≤ queue_size
    → length (enqueue t w).0.queue ≤ queue_size
unfolding enqueue
enqueue-bounded t w h = ground (arith, length-append w.queue (t ∷ []))

pub enqueue-alerted : (t : Task) (w : Worker) → (enqueue t w).0.alerted ≡ w.alerted
unfolding enqueue
enqueue-alerted t w = ground arith

pub clear-IsTracked :
    (front : List Task) (t : Task) (back : List Task) (w : Worker) (running : List Task)
    → IsTracked w running (front ++ (t ∷ back))
    → IsTracked (clear_pending t w) running (front ++ back)
unfolding clear_pending
clear-IsTracked front t back w running h k =
    ground (arith, h k, count-middle k front t back, any-clear k (key t) w.pending)

pub length-middle :
    (front : List Task) (t : Task) (back : List Task)
    → length (front ++ (t ∷ back)) ≡ suc (length (front ++ back))
length-middle front t back = omega (arith, length-append front (t ∷ back), length-append front back)

-- A task whose step is over.
pub carry_out-IsTracked :
    (w : Worker) (front : List Task) (t : Task) (back ending : List Task)
    → IsTracked w (front ++ (t ∷ back)) ending
    → IsTracked w (front ++ back) (t ∷ ending)
unfolding count
carry_out-IsTracked w front t back ending h k = omega (arith, h k, count-middle k front t back)

pub receive-IsTracked :
    (w : Worker) (t : Task) (rest running ending : List Task)
    → w.queue ≡ t ∷ rest
    → IsTracked w running ending
    → IsTracked (record w { queue = rest }) (t ∷ running) ending
unfolding count
receive-IsTracked w t rest running ending e h k =
    let q = ap (count k) e in let i = h k in omega arith

pub empty-IsTracked :
    (w : Worker) (k : Text) → w.queue ≡ [] → IsTracked w [] [] → is_pending k w ≡ false
unfolding count
empty-IsTracked w k e h = let q = ap (count k) e in let i = h k in ground arith
