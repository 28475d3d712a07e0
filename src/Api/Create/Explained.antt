-- ===== src/Api/Create/Explained.antt =====
-- src/api/payments.rs, `create`: what an answer says of the body, and of the configuration.
use stellar_gate.Prelude.{
  ℕ, ◌≤◌, ◌<◌, ◌≡◌, refl, sym, subst, ◌⊎◌, inl, inr, false, not, ◌&&◌, Option, none, some, List, [],
  ◌∷◌, arith, leb, ltb, ◌==◌, ==_iff, list_eq, nat_eq, filterb, length, Bool-cases, Option-cases,
}
use stellar_gate.Text.{Text, codes, as_bytes}
use stellar_gate.Money.{parse_stroops, is_valid_amount}
use stellar_gate.Ssrf.{Url, SafeTarget, SsrfError, Checked, safe, refused, validate}
use stellar_gate.Config.{Config, AcceptedAsset}
use stellar_gate.Db.{Db}
use stellar_gate.Db.Table.{count_where}
use stellar_gate.Api.{
  Answer, answer, refuse, AppError, bad_request, unsupported_asset, ambiguous_asset, invalid_amount,
  invalid_webhook_url,
}
use stellar_gate.Api.Create.{
  CreatePaymentRequest, Outside, Created, only, accepted_asset, with_asset, with_url, check_body,
  check_parsed, check_webhook_url, create,
}
use stellar_gate.Api.Create.Checks.{IsExplained, create-IsExplained}

module _ {N : Type 0} (config : Config N) (outside : Outside) where
  -- The URL is short, and of an allowed scheme, which is https on the public network, and the guard
  -- lets it through.
  pub record IsSafeUrl (url : Text) : Type 0 where
    pub short : length (as_bytes url) ≤ 2048
    pub parsed : Url
    pub parses : outside.net.parse url ≡ some parsed
    pub allowed : 1 ≤ count_where (λ s. s == parsed.scheme) config.allowed_webhook_schemes
    pub secure : ((config.network == codes "public") ≡ false) ⊎ (parsed.scheme ≡ codes "https")
    pub target : SafeTarget
    pub guarded : validate outside.net url config.webhook_allow_private_targets ≡ safe target

  pub data IsUnsafeUrl (url : Text) : Type 0 where
    too_long : 2048 < length (as_bytes url) → IsUnsafeUrl url
    unparsable : outside.net.parse url ≡ none → IsUnsafeUrl url
    not_allowed :
        (parsed : Url)
        → outside.net.parse url ≡ some parsed
        → count_where (λ s. s == parsed.scheme) config.allowed_webhook_schemes ≡ 0
        → IsUnsafeUrl url
    insecure :
        (parsed : Url)
        → outside.net.parse url ≡ some parsed
        → config.network ≡ codes "public"
        → (parsed.scheme == codes "https") ≡ false
        → IsUnsafeUrl url
    blocked :
        (e : SsrfError)
        → validate outside.net url config.webhook_allow_private_targets ≡ refused e
        → IsUnsafeUrl url

  abbrev pub HasSafeUrl : Option Text → Type 0
  HasSafeUrl none = Unit
  HasSafeUrl (some url) = IsSafeUrl url

  module _ (body : CreatePaymentRequest) where
    -- The accepted assets with the code of the body.
    abbrev pub matches : List AcceptedAsset
    matches = filterb (λ a. a.code == outside.to_uppercase body.asset) config.accepted_assets

    pub record IsAccepted (asset : AcceptedAsset) : Type 0 where
      pub one : matches ≡ asset ∷ []
      pub stroops : ℕ
      pub amount : parse_stroops body.amount ≡ some stroops
      pub url : HasSafeUrl body.webhook_url

    -- The first thing that is wrong with the body.
    pub data IsRejected (e : AppError) : Type 0 where
      no_asset : matches ≡ [] → e ≡ bad_request unsupported_asset → IsRejected e
      two_assets : 2 ≤ length matches → e ≡ bad_request ambiguous_asset → IsRejected e
      no_amount :
          (asset : AcceptedAsset)
          → matches ≡ asset ∷ []
          → parse_stroops body.amount ≡ none
          → e ≡ bad_request invalid_amount
          → IsRejected e
      no_url :
          (asset : AcceptedAsset) (stroops : ℕ) (url : Text)
          → matches ≡ asset ∷ []
          → parse_stroops body.amount ≡ some stroops
          → body.webhook_url ≡ some url
          → IsUnsafeUrl url
          → e ≡ bad_request invalid_webhook_url
          → IsRejected e

  Checked-cases :
      (c : Checked) → ((t : SafeTarget) × (c ≡ safe t)) ⊎ ((e : SsrfError) × (c ≡ refused e))
  Checked-cases (safe t) = inl (t, refl)
  Checked-cases (refused e) = inr (e, refl)

  abbrev Verdict : Text → Answer (Unit {0}) → Type 0
  Verdict url (answer u) = IsSafeUrl url
  Verdict url (refuse e) = IsUnsafeUrl url × (e ≡ bad_request invalid_webhook_url)

  secured :
      (scheme : Text)
      → (config.network == codes "public" && not (scheme == codes "https")) ≡ false
      → ((config.network == codes "public") ≡ false) ⊎ (scheme ≡ codes "https")
  secured scheme h = elim (Bool-cases (config.network == codes "public")) [
    | inr e ↦ inl e
    | inl e ↦ inr ((==_iff scheme (codes "https")).0 (ground (arith, e, h)))
  ]

  guard_verdict :
      (url : Text) (parsed : Url)
      → length (as_bytes url) ≤ 2048
      → outside.net.parse url ≡ some parsed
      → Verdict url (check_parsed config outside url (some parsed))
  guard_verdict url parsed short parses =
      elim (Bool-cases
        (leb (count_where (λ s. s == parsed.scheme) config.allowed_webhook_schemes) 0)) [
          | inl e ↦ rw e (not_allowed parsed parses (ground (arith, e)), refl)
          | inr e ↦
              rw e
                (elim (Bool-cases
                  (config.network == codes "public" && not (parsed.scheme == codes "https"))) [
                    | inl f ↦ rw f (
                      insecure parsed parses
                          ((==_iff config.network (codes "public")).0 (ground (arith, f)))
                          (ground (arith, f)),
                      refl,
                    )
                    | inr f ↦
                        rw f
                          (elim (Checked-cases
                            (validate outside.net url config.webhook_allow_private_targets)) [
                              | inl (t, g) ↦ rw g (record {
                                short = short;
                                parsed = parsed;
                                parses = parses;
                                allowed = ground (arith, e);
                                secure = secured parsed.scheme f;
                                target = t;
                                guarded = g;
                              })
                              | inr (x, g) ↦ rw g (blocked x g, refl)
                            ])
                  ])
        ]

  url_verdict : (url : Text) → Verdict url (check_webhook_url config outside (some url))
  unfolding check_webhook_url
  url_verdict url = elim (Bool-cases (ltb 2048 (length (as_bytes url)))) [
    | inl e ↦ rw e (too_long (ground (arith, e)), refl)
    | inr e ↦ rw e (elim (Option-cases (outside.net.parse url)) [
      | inl f ↦ rw f (unparsable f, refl)
      | inr (parsed, f) ↦ rw f (guard_verdict url parsed (ground (arith, e)) f)
    ])
  ]

  module _ (body : CreatePaymentRequest) where
    abbrev BodyVerdict : Answer AcceptedAsset → Type 0
    BodyVerdict (answer asset) = IsAccepted body asset
    BodyVerdict (refuse e) = IsRejected body e

    with_url_verdict :
        (asset : AcceptedAsset) (stroops : ℕ) (url : Text) (checked : Answer (Unit {0}))
        → matches body ≡ asset ∷ []
        → parse_stroops body.amount ≡ some stroops
        → body.webhook_url ≡ some url
        → Verdict url checked
        → BodyVerdict (with_url config outside asset checked)
    with_url_verdict asset stroops url (answer u) one amount there v = record {
      one = one;
      stroops = stroops;
      amount = amount;
      url = subst HasSafeUrl (sym there) v;
    }
    with_url_verdict asset stroops url (refuse e) one amount there v =
        no_url asset stroops url one amount there v.0 v.1

    url_case :
        (asset : AcceptedAsset) (stroops : ℕ) (url : Option Text)
        → matches body ≡ asset ∷ []
        → parse_stroops body.amount ≡ some stroops
        → body.webhook_url ≡ url
        → BodyVerdict (with_url config outside asset (check_webhook_url config outside url))
    unfolding check_webhook_url
    url_case asset stroops none one amount there = record {
      one = one;
      stroops = stroops;
      amount = amount;
      url = subst HasSafeUrl (sym there) tt;
    }
    url_case asset stroops (some url) one amount there =
        with_url_verdict asset stroops url (check_webhook_url config outside (some url)) one amount
          there (url_verdict url)

    found_verdict :
        (found : List AcceptedAsset)
        → matches body ≡ found
        → BodyVerdict (with_asset config outside body (only found))
    unfolding is_valid_amount
    found_verdict [] e = no_asset e refl
    found_verdict (one ∷ []) e = elim (Option-cases (parse_stroops body.amount)) [
      | inl f ↦ rw (f, is_valid_amount) (no_amount one e f refl)
      | inr (stroops, f) ↦ rw (f, is_valid_amount) (url_case one stroops body.webhook_url e f refl)
    ]
    found_verdict (one ∷ two ∷ rest) e = two_assets (rw e (omega arith)) refl

    body_verdict : BodyVerdict (check_body config outside body)
    unfolding check_body accepted_asset
    body_verdict = found_verdict (matches body) refl

    -- A payment is answered for a body that is accepted; a refusal names the first thing that is wrong
    -- with the body and leaves the tables alone, or it is a 500.
    abbrev pub IsJudged : Db → Answer Created × Db → Type 0
    IsJudged db (answer created, db') = (asset : AcceptedAsset) × IsAccepted body asset
    IsJudged db (refuse e, db') = (IsRejected body e × (db' ≡ db)) ⊎ (e.status ≡ 500)

    judged :
        (merchant_id : Text) (db : Db) (r : Answer Created × Db)
        → IsExplained config outside merchant_id body db r
        → IsJudged db r
    judged merchant_id db (answer created, db') (asset, h) =
        (asset, subst BodyVerdict h body_verdict)
    judged merchant_id db (refuse e, db') (inl (h, same)) =
        inl (subst BodyVerdict h body_verdict, same)
    judged merchant_id db (refuse e, db') (inr h) = inr h

    -- A payment is only answered for a body whose code one accepted asset has, whose amount
    -- parses, and whose webhook URL, if it has one, is of at most 2048 bytes, parses, has an
    -- allowed scheme, which is https on the public network, and passes the guard. A refusal is a
    -- 500, or it leaves the tables alone and its code is that of the first of these, in this
    -- order, that fails.
    pub create-IsJudged :
        (merchant_id : Text) (db : Db) → IsJudged db (create config outside merchant_id body db)
    create-IsJudged merchant_id db =
        judged merchant_id db (create config outside merchant_id body db)
          (create-IsExplained config outside merchant_id body db)
