-- ===== src/Hooklane/Config.antt =====
-- The checks of URLs in src/hooklane/runtime_config.py. `urllib.parse` is a parameter.
use hooklane.Prelude.{
  ℕ, Bool, true, false, not, ◌&&◌, ◌||◌, Option, none, some, List, [], ◌∷◌, ◌≡◌, ◌↔◌, ◌==◌, any,
  Option-cases, inl, inr, arith, if◌then◌else◌,
}
use hooklane.Cloudflare.Contract.{is_space}

-- A `SplitResult`, whose attributes are read without a `ValueError`.
pub record SplitResult : Type 0 where
  pub scheme : List ℕ
  pub netloc : List ℕ
  pub hostname : Option (List ℕ)
  pub username : Option (List ℕ)
  pub password : Option (List ℕ)
  pub query : List ℕ
  pub fragment : List ℕ

-- `urlsplit` with its attributes, `none` where one of them raises; and `urlunsplit` of a scheme and a
-- location.
pub record UrlParse : Type 0 where
  pub urlsplit : List ℕ → Option SplitResult
  pub urlunsplit : List ℕ → List ℕ → List ℕ

pub record RedisConnectionConfig : Type 0 where
  pub value : List ℕ
  pub scheme : List ℕ
  pub tls_enabled : Bool
  pub has_credentials : Bool

pub record DownstreamTargetConfig : Type 0 where
  pub value : List ℕ
  pub origin : List ℕ

abbrev pub same_text : List ℕ → List ℕ → Bool
same_text [] [] = true
same_text (c ∷ cs) (b ∷ bs) = (c == b) && same_text cs bs
same_text [] (b ∷ bs) = false
same_text (c ∷ cs) [] = false

abbrev pub is_present : {A : Type 0} → Option A → Bool
is_present none = false
is_present (some a) = true

abbrev pub is_blank : List ℕ → Bool
is_blank [] = true
is_blank (c ∷ cs) = false

abbrev pub text_redis : List ℕ
text_redis = 0x72 ∷ 0x65 ∷ 0x64 ∷ 0x69 ∷ 0x73 ∷ []

abbrev pub text_rediss : List ℕ
text_rediss = 0x72 ∷ 0x65 ∷ 0x64 ∷ 0x69 ∷ 0x73 ∷ 0x73 ∷ []

abbrev pub text_http : List ℕ
text_http = 0x68 ∷ 0x74 ∷ 0x74 ∷ 0x70 ∷ []

abbrev pub text_https : List ℕ
text_https = 0x68 ∷ 0x74 ∷ 0x74 ∷ 0x70 ∷ 0x73 ∷ []

-- `not value or any(character.isspace() for character in value)`.
unfoldable pub is_unreadable : List ℕ → Bool
is_unreadable value = is_blank value || any is_space value

-- The checks of a result of `urlsplit`; `none` is a `RuntimeConfigurationError`.
unfoldable pub check_redis : List ℕ → SplitResult → Option RedisConnectionConfig
check_redis value parsed =
    if not (same_text parsed.scheme text_redis || same_text parsed.scheme text_rediss)
      || not (is_present parsed.hostname)
    then none
    else if not (is_blank parsed.query) || not (is_blank parsed.fragment)
    then none
    else some (record {
      value = value;
      scheme = parsed.scheme;
      tls_enabled = same_text parsed.scheme text_rediss;
      has_credentials = is_present parsed.username || is_present parsed.password;
    })

unfoldable pub check_downstream : UrlParse → List ℕ → SplitResult → Option DownstreamTargetConfig
check_downstream urls value parsed =
    if not (same_text parsed.scheme text_http || same_text parsed.scheme text_https)
      || not (is_present parsed.hostname)
    then none
    else if is_present parsed.username || is_present parsed.password
    then none
    else if not (is_blank parsed.query) || not (is_blank parsed.fragment)
    then none
    else some (record { value = value; origin = urls.urlunsplit parsed.scheme parsed.netloc })

unfoldable pub parse_redis_url : UrlParse → List ℕ → Option RedisConnectionConfig
unfolding is_unreadable check_redis
parse_redis_url urls value =
    if is_unreadable value
    then none
    else elim (urls.urlsplit value) [ none ↦ none | some parsed ↦ check_redis value parsed ]

unfoldable pub parse_downstream_url : UrlParse → List ℕ → Option DownstreamTargetConfig
unfolding is_unreadable check_downstream
parse_downstream_url urls value = if is_unreadable value then none else elim (urls.urlsplit value) [
  | none ↦ none
  | some parsed ↦ check_downstream urls value parsed
]

-- A URL that events may be sent to, and what is kept of it.
pub record IsDownstream (urls : UrlParse) (value : List ℕ) (target : DownstreamTargetConfig)
    : Type 0 where
  pub parsed : SplitResult
  pub splits : urls.urlsplit value ≡ some parsed
  pub is_not_blank : is_blank value ≡ false
  pub has_no_space : any is_space value ≡ false
  pub is_http : (same_text parsed.scheme text_http || same_text parsed.scheme text_https) ≡ true
  pub has_host : is_present parsed.hostname ≡ true
  pub has_no_credentials : (is_present parsed.username || is_present parsed.password) ≡ false
  pub has_no_query : (is_blank parsed.query && is_blank parsed.fragment) ≡ true
  pub keeps_value : target.value ≡ value
  pub has_origin : target.origin ≡ urls.urlunsplit parsed.scheme parsed.netloc

parse_downstream_url-IsDownstream :
    (urls : UrlParse) (value : List ℕ) (target : DownstreamTargetConfig)
    → parse_downstream_url urls value ≡ some target
    → IsDownstream urls value target
unfolding parse_downstream_url check_downstream is_unreadable
parse_downstream_url-IsDownstream urls value target h = elim (Option-cases (urls.urlsplit value)) [
  | inl e ↦ absurd (ground arith)
  | inr (parsed, e) ↦ record {
    parsed = parsed;
    splits = e;
    is_not_blank = ground arith;
    has_no_space = ground arith;
    is_http = ground arith;
    has_host = ground arith;
    has_no_credentials = ground arith;
    has_no_query = ground arith;
    keeps_value = ground arith;
    has_origin = ground arith;
  }
]

check_downstream_lem :
    (urls : UrlParse) (value : List ℕ) (target : DownstreamTargetConfig) (parsed : SplitResult)
    → (same_text parsed.scheme text_http || same_text parsed.scheme text_https) ≡ true
    → is_present parsed.hostname ≡ true
    → (is_present parsed.username || is_present parsed.password) ≡ false
    → (is_blank parsed.query && is_blank parsed.fragment) ≡ true
    → target.value ≡ value
    → target.origin ≡ urls.urlunsplit parsed.scheme parsed.netloc
    → check_downstream urls value parsed ≡ some target
unfolding check_downstream
check_downstream_lem urls value target parsed a b c q v w = ground arith

IsDownstream-parses :
    (urls : UrlParse) (value : List ℕ) (target : DownstreamTargetConfig)
    → IsDownstream urls value target
    → parse_downstream_url urls value ≡ some target
unfolding parse_downstream_url check_downstream is_unreadable
IsDownstream-parses urls value target d =
    let parsed = d.parsed in
    let kept = d.keeps_value in
    let origin = d.has_origin in
    let checked : check_downstream urls value parsed ≡ some target =
      check_downstream_lem urls value target parsed d.is_http d.has_host d.has_no_credentials
        d.has_no_query kept origin in
    rw (d.is_not_blank) (rw (d.has_no_space) (rw (d.splits) checked))

-- A downstream URL is accepted exactly if it is an HTTP(S) URL with a host, without white space,
-- credentials, query and fragment; its value is kept as it is, and its origin is that of its scheme
-- and location.
pub parse_downstream_url-accepts :
    (urls : UrlParse) (value : List ℕ) (target : DownstreamTargetConfig)
    → (parse_downstream_url urls value ≡ some target) ↔ IsDownstream urls value target
parse_downstream_url-accepts urls value target =
    (parse_downstream_url-IsDownstream urls value target, IsDownstream-parses urls value target)
