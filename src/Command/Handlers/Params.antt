-- ===== src/Command/Handlers/Params.antt =====
-- The parameters of rule objects: the parsers of internal/command/handlers/cache.go and objects.go.
use mesh_cdn.Base.{
  ltb, ◌==◌, if◌then◌else◌, Result, filter, any, Text, text, same, is_empty, split, join,
  trim_space, ℕ, Bool, true, false, not, ◌||◌, Option, none, some, List, [], ◌∷◌, ◌++◌, map, ok,
  err,
}
use mesh_cdn.Base.Int.{ℤ, pos, ltb_ℤ}
use mesh_cdn.Base.Decimal.{parse_int}
use mesh_cdn.Base.Table.{get}
use mesh_cdn.Command.Types.{Error, plain, other}

abbrev pub fails : {A : Type 0} → Text → Result Error A
fails m = err (plain (other m))

abbrev pub is_one_of : List Text → Text → Bool
is_one_of ks k = any (λ j. same j k) ks

-- rejectUnknownKeys, which ranges over a map: of several unknown keys the first is reported here.
unfoldable pub reject_unknown_keys :
    (Text → Text) → List (Text × Text) → Text → List Text → Option Error
unfolding same join
reject_unknown_keys quote [] type allowed = none
reject_unknown_keys quote ((k, v) ∷ m) type allowed =
    let rest = reject_unknown_keys quote m type allowed in
    if is_one_of allowed k
    then rest
    else if is_one_of (text "geo" ∷ text "cc" ∷ []) k
    then some (
        plain (
          other (
            type
            ++ (text ": 参数 " ++ (quote k ++ text " 尚未实现（geo 地理封禁 / cc 防护仍在路线图待定区），请勿使用以免误以为已生效")))))
    else some (
        plain (
          other (
            type
            ++ (text ": 未知参数 "
                ++ (quote k ++ (text "（允许: " ++ (join (text ", ") allowed ++ text "）")))))))

-- splitCSV
unfoldable pub split_csv : Text → List Text
unfolding split trim_space
split_csv s = filter (λ p. not (is_empty p)) (map trim_space (split 0x2C s))

pub record CacheParams : Type 0 where
  pub patterns : List Text
  pub ttl : ℤ
  pub browser_ttl : ℤ
  pub hsts : Bool

pub record DefenseParams : Type 0 where
  pub ip : List Text
  pub ua : Text
  pub ref : List Text
  pub action : Text
  pub duration : ℤ
  pub rate : ℤ
  pub size : Text

pub record RedirectParams : Type 0 where
  pub from : Text
  pub to : Text
  pub status : ℤ
  pub regex : Bool

pub record HeaderParams : Type 0 where
  pub request_add : List (Text × Text)
  pub request_del : List Text
  pub response_add : List (Text × Text)
  pub response_del : List Text

abbrev pub is_control : ℕ → Bool
is_control r = ltb r 0x20 || r == 0x7F

abbrev pub has_any : {A : Type 0} → List A → Bool
has_any [] = false
has_any (x ∷ xs) = true

-- The value of a key, or a default.
abbrev pub value_or : Text → Text → List (Text × Text) → Text
value_or default k m = elim (get k m) [ none ↦ default | some v ↦ v ]

-- A number under a key that passes a test, or a default.
unfoldable pub number_or : ℤ → (ℤ → Bool) → (Text → Text) → Option Text → Result Error ℤ
unfolding parse_int
number_or default good complain none = ok default
number_or default good complain (some v) = elim (parse_int v) [
  | none ↦ err (plain (other (complain v)))
  | some n ↦ if good n then ok n else err (plain (other (complain v)))
]

abbrev pub not_negative : ℤ → Bool
not_negative n = not (ltb_ℤ n (pos 0))

infixl 5 ◌>>=◌
abbrev pub ◌>>=◌ : {A B : Type 0} → Result Error A → (A → Result Error B) → Result Error B
ok a >>= f = f a
err e >>= f = err e

abbrev pub check : Option Error → Result Error (Unit {0})
check none = ok tt
check (some e) = err e

infixl 5 ◌>>◌
abbrev pub ◌>>◌ : {B : Type 0} → Result Error (Unit {0}) → Result Error B → Result Error B
m >> k = m >>= λ _. k
