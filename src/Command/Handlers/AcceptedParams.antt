-- ===== src/Command/Handlers/AcceptedParams.antt =====
-- What Validate of the rule objects accepts, the parsers of the parameters read.
use mesh_cdn.Base.{
  Option-cases, none-ne-some, Result-cases, Result, Text, text, same, ◌≡◌, refl, sym, inl, inr,
  true, Option, none, some, [], ◌∷◌, ◌++◌, arith, ok, err,
}
use mesh_cdn.Base.Int.{ℤ, pos}
use mesh_cdn.Base.Decimal.{parse_int}
use mesh_cdn.Base.Table.{get}
use mesh_cdn.Command.Types.{write, Code, Command, Error, parse_key_value_params}
use mesh_cdn.Command.Handlers.{Outside}
use mesh_cdn.Command.Handlers.Params.{
  CacheParams, split_csv, value_or, number_or, reject_unknown_keys,
}
use mesh_cdn.Command.Handlers.ParamParsers.{parse_cache_params}
use mesh_cdn.Command.Handlers.Objects.{error_of, validate_rule_object}
use mesh_cdn.Command.Handlers.ObjectTypes.{
  ttl_error, hsts_error, patterns_error, first_error, cache_params_error,
}

pub error_of-ok :
    {A : Type 0} (k : Code) (r : Result Error A) → error_of k r ≡ none → (a : A) × (r ≡ ok a)
error_of-ok k (ok a) h = (a, refl)
error_of-ok k (err e) h = absurd (none-ne-some (sym h))

module _ (out : Outside) where
  pub validate_rule_object_write :
      (type : Text) (sp : Text → Option Error) (c : Command)
      → c.verb ≡ write
      → validate_rule_object out type sp c ≡ none
      → sp c.params ≡ none
  unfolding validate_rule_object
  validate_rule_object_write type sp c w h = ground (arith, w, h)

  ttl-number_or :
      (name : Text) (complain : Text → Text) (v : Option Text)
      → ttl_error out name v ≡ none
      → (n : ℤ) × (number_or (pos 0) (λ n. true) complain v ≡ ok n)
  unfolding number_or
  ttl-number_or name complain none h = (pos 0, refl)
  ttl-number_or name complain (some v) h = elim (Option-cases (parse_int v)) [
    | inl e ↦ absurd (ground arith)
    | inr (n, e) ↦ (n, ground arith)
  ]

  first_error-none : (a b : Option Error) → first_error out a b ≡ none → (a ≡ none) × (b ≡ none)
  first_error-none none b h = (refl, h)
  first_error-none (some e) b h = absurd (none-ne-some (sym h))

  -- The parameters of a cache object that Validate accepts.
  pub cache_params_error-parse :
      (s : Text)
      → cache_params_error out s ≡ none
      → (p : CacheParams) × (parse_cache_params out s ≡ ok p)
  unfolding cache_params_error parse_cache_params
  cache_params_error-parse s h = elim (Result-cases (parse_key_value_params s)) [
    | inr (x, e) ↦ absurd (ground arith)
    | inl (m, e) ↦
        elim (Option-cases (
          reject_unknown_keys out.quote m (text "cache")
            (text "patterns" ∷ text "ttl" ∷ text "browser_ttl" ∷ text "hsts" ∷ []))) [
              | inr (x, f) ↦ absurd (ground arith)
              | inl f ↦
                  let p = patterns_error out (get (text "patterns") m) in
                  let te = ttl_error out (text "ttl") (get (text "ttl") m) in
                  let be = ttl_error out (text "browser_ttl") (get (text "browser_ttl") m) in
                  let he = hsts_error out (get (text "hsts") m) in
                  let chain : first_error out p (first_error out te (first_error out be he))
                      ≡ none =
                    ground (arith, e, f, h) in
                  let rest =
                    (first_error-none p (first_error out te (first_error out be he)) chain).1 in
                  let (t, more) = first_error-none te (first_error out be he) rest in
                  let b = (first_error-none be he more).0 in
                  let (i, x) =
                    ttl-number_or (text "ttl") (λ v. text "invalid ttl: " ++ out.atoi_error v)
                      (get (text "ttl") m) t in
                  let (j, y) =
                    ttl-number_or (text "browser_ttl")
                      (λ v. text "invalid browser_ttl: " ++ out.atoi_error v)
                      (get (text "browser_ttl") m) b in
                  (
                    record {
                      patterns = split_csv (value_or [] (text "patterns") m);
                      ttl = i;
                      browser_ttl = j;
                      hsts = same (value_or [] (text "hsts") m) (text "true");
                    },
                    ground (arith, e, f, x, y),
                  )
            ]
  ]
