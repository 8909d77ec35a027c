-- ===== src/Command/Handlers/ParamParsers.antt =====
-- parseCacheParams, parseDefenseParams, parseRedirectParams and parseHeaderParams.
use mesh_cdn.Base.{
  ltb, ◌==◌, if◌then◌else◌, Result, find?, Text, text, same, is_empty, contains, cut, trim_space,
  byte_len, Bool, true, false, not, ◌&&◌, ◌||◌, Option, none, some, List, [], ◌∷◌, ◌++◌, ok,
}
use mesh_cdn.Base.Int.{ℤ, pos, ltb_ℤ, beq_ℤ}
use mesh_cdn.Base.Decimal.{decimal}
use mesh_cdn.Base.Table.{get, put}
use mesh_cdn.Command.Types.{Error, parse_key_value_params}
use mesh_cdn.Command.Handlers.{Outside}
use mesh_cdn.Command.Handlers.Params.{
  ◌>>=◌, ◌>>◌, CacheParams, DefenseParams, RedirectParams, HeaderParams, fails, reject_unknown_keys,
  split_csv, is_control, has_any, value_or, number_or, not_negative, check,
}

module _ (out : Outside) where
  -- parseCacheParams
  unfoldable pub parse_cache_params : Text → Result Error CacheParams
  unfolding parse_key_value_params reject_unknown_keys get same split_csv number_or
  parse_cache_params s = do
    m ← parse_key_value_params s
    check (
        reject_unknown_keys out.quote m (text "cache")
          (text "patterns" ∷ text "ttl" ∷ text "browser_ttl" ∷ text "hsts" ∷ []))
    t ←
        number_or (pos 0) (λ n. true) (λ v. text "invalid ttl: " ++ out.atoi_error v)
          (get (text "ttl") m)
    b ←
        number_or (pos 0) (λ n. true) (λ v. text "invalid browser_ttl: " ++ out.atoi_error v)
          (get (text "browser_ttl") m)
    ok (record {
      patterns = split_csv (value_or [] (text "patterns") m);
      ttl = t;
      browser_ttl = b;
      hsts = same (value_or [] (text "hsts") m) (text "true");
    })

  -- The three characters in a row that uaReDoSHeuristic looks for.
  unfoldable pub has_nested_quantifier : Text → Bool
  has_nested_quantifier [] = false
  has_nested_quantifier (a ∷ []) = false
  has_nested_quantifier (a ∷ b ∷ []) = false
  has_nested_quantifier (a ∷ b ∷ c ∷ s) =
      (contains (text "+*}") a && (b == 0x29 && contains (text "*+{") c))
      || has_nested_quantifier (b ∷ c ∷ s)

  -- validateUARegex
  unfoldable pub ua_error : Text → Option Text
  unfolding has_nested_quantifier byte_len decimal
  ua_error pat =
      if is_empty pat
      then none
      else if ltb 256 (byte_len pat)
      then some (text "ua 正则过长（" ++ (decimal (byte_len pat) ++ text " > 256 字符）"))
      else elim (find? is_control pat) [
        | some r ↦ some (text "ua 正则包含控制字符 " ++ (out.rune_text r ++ text "，已拒绝"))
        | none ↦
            if has_nested_quantifier pat
            then some (text "ua 正则 " ++ (out.quote pat ++ text " 具有灾难性回溯（ReDoS）结构，请拆解嵌套量词后重试"))
            else elim (out.compile_error pat) [
              | none ↦ none
              | some e ↦ some (text "ua 正则 " ++ (out.quote pat ++ (text " 非法: " ++ e)))
            ]
      ]

  abbrev guard_text : Option Text → Result Error (Unit {0})
  guard_text none = ok tt
  guard_text (some e) = fails e

  abbrev is_action : Text → Bool
  is_action v = same v (text "block") || same v (text "allow")

  abbrev action_error : Option Text → Option Text
  action_error none = none
  action_error (some v) =
      if is_action v then none else some (text "action must be block or allow, got " ++ out.quote v)

  -- The last test of parseDefenseParams.
  abbrev pub has_criterion : DefenseParams → Bool
  has_criterion p =
      has_any p.ip
      || (has_any p.ua || (has_any p.ref || (not (beq_ℤ p.rate (pos 0)) || has_any p.size)))

  -- parseDefenseParams
  unfoldable pub parse_defense_params : Text → Result Error DefenseParams
  unfolding parse_key_value_params reject_unknown_keys get same split_csv number_or ua_error
  parse_defense_params s = do
    m ← parse_key_value_params s
    check (
        reject_unknown_keys out.quote m (text "defense") (
          text "ip"
          ∷ text "ua"
          ∷ text "ref"
          ∷ text "action"
          ∷ text "duration"
          ∷ text "rate"
          ∷ text "size"
          ∷ []))
    guard_text (ua_error (value_or [] (text "ua") m))
    guard_text (action_error (get (text "action") m))
    d ←
        number_or (pos 0) not_negative (λ v. text "invalid duration: " ++ out.quote v)
          (get (text "duration") m)
    r ←
        number_or (pos 0) not_negative (λ v. text "invalid rate: " ++ out.quote v)
          (get (text "rate") m)
    let p : DefenseParams = record {
      ip = split_csv (value_or [] (text "ip") m);
      ua = value_or [] (text "ua") m;
      ref = split_csv (value_or [] (text "ref") m);
      action = value_or (text "block") (text "action") m;
      duration = d;
      rate = r;
      size = value_or [] (text "size") m;
    }
    if has_criterion p
        then ok p
        else fails (text "defense object needs at least one criterion (ip/ua/ref/rate/size)")

  abbrev required : Text → Option Text → Result Error Text
  required m none = fails m
  required m (some v) = ok v

  abbrev is_redirect_status : ℤ → Bool
  is_redirect_status n = not (ltb_ℤ n (pos 300)) && ltb_ℤ n (pos 400)

  -- parseRedirectParams
  unfoldable pub parse_redirect_params : Text → Result Error RedirectParams
  unfolding parse_key_value_params reject_unknown_keys get same number_or
  parse_redirect_params s = do
    m ← parse_key_value_params s
    check (
        reject_unknown_keys out.quote m (text "redirect")
          (text "from" ∷ text "to" ∷ text "status" ∷ text "regex" ∷ []))
    from ← required (text "redirect requires from=...") (get (text "from") m)
    to ← required (text "redirect requires to=...") (get (text "to") m)
    n ←
        number_or (pos 301) is_redirect_status
          (λ v. text "invalid redirect status: " ++ (out.quote v ++ text " (expected 3xx)"))
          (get (text "status") m)
    ok (record {
      from = from;
      to = to;
      status = n;
      regex = same (value_or [] (text "regex") m) (text "true");
    })

  -- The closure parseKVList.
  unfoldable pub parse_kv_list : List (Text × Text) → List Text → List (Text × Text)
  unfolding cut put trim_space
  parse_kv_list result [] = result
  parse_kv_list result (pair ∷ pairs) =
      parse_kv_list
        (elim (cut 0x3D pair) [
          | none ↦ result
          | some ([], v) ↦ result
          | some (c ∷ k, v) ↦ put (trim_space (c ∷ k)) (trim_space v) result
        ])
        pairs

  -- parseHeaderParams
  unfoldable pub parse_header_params : Text → Result Error HeaderParams
  unfolding parse_key_value_params reject_unknown_keys get split_csv parse_kv_list
  parse_header_params s = do
    m ← parse_key_value_params s
    check (
        reject_unknown_keys out.quote m (text "header") (
          text "request_add" ∷ text "request_del" ∷ text "response_add" ∷ text "response_del" ∷ []))
    let p : HeaderParams = record {
      request_add = parse_kv_list [] (split_csv (value_or [] (text "request_add") m));
      request_del = split_csv (value_or [] (text "request_del") m);
      response_add = parse_kv_list [] (split_csv (value_or [] (text "response_add") m));
      response_del = split_csv (value_or [] (text "response_del") m);
    }
    if has_any p.request_add
          || (has_any p.request_del || (has_any p.response_add || has_any p.response_del))
        then ok p
        else fails (
            text
              "header object needs at least one of request_add/request_del/response_add/response_del")
