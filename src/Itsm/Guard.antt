-- ===== src/Itsm/Guard.antt =====
-- What the webhook's guard lets through, and what the dry run says of it.
use nms.Prelude.{
  ℕ, ◌≡◌, refl, sym, ◌∙◌, [], Bool, true, false, ◌||◌, String, Option, none, some, arith, ◌==◌,
  str_eq, Bool-cases, inl, inr, if-both, ◌⊎◌, eq_iff, trim_space, to_lower, has_prefix, text_drop,
}
use nms.Prelude.Result.{Result, ok, err}
use nms.Config.{Os, env_or_file}
use nms.Sql.{Conn}
use nms.Sql.Rules.{Keeps-query}
use nms.Sql.Parts.{Keeps-zoom}
use nms.Incident.Tables.{Incident}
use nms.Incident.Audit.{IsAudited}
use nms.Incident.Audit.Inbound.{apply_itsm_inbound_update-Keeps}
use nms.Itsm.Mapping.{ItsmMapping, ItsmDb, resolve_itsm_inbound_mapping}
use nms.Itsm.Webhook.{
  InboundInput, InboundRequest, InboundResolved, Inbound, refused, accepted, inbound_itsm_token,
  request_itsm_token, bearer_or, constant_time_token_equal, with_mapping, resolve_body,
  decode_and_resolve_itsm_inbound, plain, tables_of, with_tables, inbound_answer, apply_resolved,
  itsm_inbound_webhook, dry_answer, itsm_inbound_dry_run,
}

abbrev has_token : Os → (String → String) → InboundRequest → Bool
has_token os sha256 r =
    constant_time_token_equal sha256 (request_itsm_token r) (inbound_itsm_token os)

-- The token that the request carries: what follows "bearer " in the Authorization header, in any
-- case, or else the X-ITSM-Token header.
abbrev pub Carries : InboundRequest → String → Type 0
Carries r token =
    ((has_prefix (to_lower (trim_space r.authorization)) "bearer " ≡ true)
      × (token ≡ trim_space (text_drop 7 (trim_space r.authorization))))
    ⊎ ((has_prefix (to_lower (trim_space r.authorization)) "bearer " ≡ false)
        × (token ≡ trim_space r.x_itsm_token))

-- A POST with a token; it and the configured one are not blank and have the same digest.
pub record IsAuthorized (os : Os) (sha256 : String → String) (r : InboundRequest) : Type 0 where
  pub posted : r.method ≡ "POST"
  pub token : String
  pub carried : Carries r token
  pub present : str_eq (trim_space token) "" ≡ false
  pub want : String
  pub configured : want ≡ trim_space (env_or_file os "NMS_ITSM_INBOUND_TOKEN")
  pub is_set : str_eq (trim_space want) "" ≡ false
  pub same : sha256 (trim_space token) ≡ sha256 (trim_space want)

request_itsm_token-Carries : (r : InboundRequest) → Carries r (request_itsm_token r)
unfolding request_itsm_token bearer_or text_drop
request_itsm_token-Carries r =
    elim (Bool-cases (has_prefix (to_lower (trim_space r.authorization)) "bearer ")) [
      | inl bearer ↦ rw bearer (inl (refl, refl))
      | inr other ↦ rw other (inr (refl, refl))
    ]

-- Tokens that compare equal are not blank and have the same digest.
compared :
    (sha256 : String → String) (a b : String)
    → constant_time_token_equal sha256 a b ≡ true
    → (str_eq (trim_space a) "" ≡ false)
      × (str_eq (trim_space b) "" ≡ false)
      × (sha256 (trim_space a) ≡ sha256 (trim_space b))
unfolding constant_time_token_equal
compared sha256 a b h = (
  ground arith,
  ground arith,
  (eq_iff (sha256 (trim_space a)) (sha256 (trim_space b))).0 (ground arith),
)

authorized :
    (os : Os) (sha256 : String → String) (r : InboundRequest)
    → str_eq r.method "POST" ≡ true
    → has_token os sha256 r ≡ true
    → IsAuthorized os sha256 r
unfolding inbound_itsm_token
authorized os sha256 r post h =
    let (present, set, same) = compared sha256 (request_itsm_token r) (inbound_itsm_token os) h in
    record {
      posted = (eq_iff r.method "POST").0 post;
      token = request_itsm_token r;
      carried = request_itsm_token-Carries r;
      present = present;
      want = inbound_itsm_token os;
      configured = refl;
      is_set = set;
      same = same;
    }

-- Each request of the webhook is either answered 405, 503 or 401, and then no statement runs and no
-- notice is sent, or it is a POST that carries a token which is not blank, nor is the configured one,
-- and both have the same digest; only then is its body resolved and applied.
pub only_tokens_pass :
    (os : Os) (sha256 : String → String) (r : InboundRequest) (c : Conn ItsmDb)
    → ((code : ℕ) × (message : String) × (itsm_inbound_webhook os sha256 r c
          ≡ (plain code message, c))
        × ((code == 405 || code == 503 || code == 401) ≡ true))
      ⊎ (IsAuthorized os sha256 r
          × (itsm_inbound_webhook os sha256 r c ≡ apply_resolved (resolve_body os r.body c)))
unfolding itsm_inbound_webhook decode_and_resolve_itsm_inbound apply_resolved
only_tokens_pass os sha256 r c = elim (Bool-cases (str_eq r.method "POST")) [
  | inr other ↦ inl (405, "method not allowed", rw other refl, refl)
  | inl post ↦ elim (Bool-cases (str_eq (inbound_itsm_token os) "")) [
    | inl unset ↦ inl (503, "itsm inbound is not configured", rw (post, unset) refl, refl)
    | inr set ↦ elim (Bool-cases (has_token os sha256 r)) [
      | inr wrong ↦ inl (401, "unauthorized", rw (post, set, wrong) refl, refl)
      | inl known ↦ inr (authorized os sha256 r post known, rw (post, set, known) refl)
    ]
  ]
]

-- What was resolved touches the incident tables as ApplyITSMInboundUpdate does.
inbound_answer-tables :
    (x : InboundResolved) (r : Result (Option Incident × Bool × Bool) × Conn ItsmDb)
    → (inbound_answer x r).1 ≡ r.1
unfolding inbound_answer
inbound_answer-tables x (err e, c) = refl
inbound_answer-tables x (ok (none, s, a), c) = refl
inbound_answer-tables x (ok (some i, s, a), c) = refl

abbrev Audited : ItsmDb → Type 0
Audited s = IsAudited s.tables

apply_resolved-Audited :
    (r : Inbound × Conn ItsmDb) → Audited r.1.db → Audited (apply_resolved r).1.db
unfolding apply_resolved
apply_resolved-Audited (refused code message, c) h = h
apply_resolved-Audited (accepted x, c) h = rw (inbound_answer-tables x _) (
    (Keeps-zoom IsAudited tables_of with_tables _ (λ s p. p) (λ db s p q. p)
        (apply_itsm_inbound_update-Keeps _ _ _ _ _)).at
      c h)

with_mapping-tables :
    (os : Os) (input : InboundInput) (r : Result (Option ItsmMapping) × Conn ItsmDb)
    → (with_mapping os input r).1 ≡ r.1
unfolding with_mapping
with_mapping-tables os input (err e, c) = refl
with_mapping-tables os input (ok m, c) =
    if-both {A = Inbound × Conn ItsmDb} (λ x. x.1 ≡ c) _ _ _ refl refl

asked-tables :
    (provider status priority owner : String) (c : Conn ItsmDb)
    → (resolve_itsm_inbound_mapping provider status priority owner c).1.db ≡ c.db
unfolding resolve_itsm_inbound_mapping
asked-tables provider status priority owner c = (Keeps-query {P = λ s. s ≡ c.db} _).at c refl

body-tables :
    (os : Os) (b : Option InboundInput) (c : Conn ItsmDb) → (resolve_body os b c).1.db ≡ c.db
unfolding resolve_body
body-tables os none c = refl
body-tables os (some input) c = elim (Bool-cases (input.incident_id == 0)) [
  | inl blank ↦ rw blank refl
  | inr set ↦ rw (set, with_mapping-tables os input _) (asked-tables _ _ _ _ c)
]

-- Resolving reads the tables only.
decode-tables :
    (os : Os) (sha256 : String → String) (r : InboundRequest) (c : Conn ItsmDb)
    → (decode_and_resolve_itsm_inbound os sha256 r c).1.db ≡ c.db
unfolding decode_and_resolve_itsm_inbound
decode-tables os sha256 r c = elim (Bool-cases (str_eq (inbound_itsm_token os) "")) [
  | inl unset ↦ rw unset refl
  | inr set ↦ elim (Bool-cases (has_token os sha256 r)) [
    | inl known ↦ rw (set, known) (body-tables os r.body c)
    | inr stranger ↦ rw (set, stranger) refl
  ]
]

-- The webhook keeps the history of the incidents audited, whatever the request, the mappings and the
-- failing statements.
pub itsm_inbound_webhook-IsAudited :
    (os : Os) (sha256 : String → String) (r : InboundRequest) (c : Conn ItsmDb)
    → IsAudited c.db.tables
    → IsAudited (itsm_inbound_webhook os sha256 r c).1.db.tables
unfolding itsm_inbound_webhook
itsm_inbound_webhook-IsAudited os sha256 r c h = elim (Bool-cases (str_eq r.method "POST")) [
  | inl post ↦ rw post (
      apply_resolved-Audited (decode_and_resolve_itsm_inbound os sha256 r c)
        (rw (decode-tables os sha256 r c) h))
  | inr other ↦ rw other h
]

dry_answer-tables : (r : Inbound × Conn ItsmDb) → (dry_answer r).1.db ≡ r.1.db
unfolding dry_answer
dry_answer-tables (refused code message, c) = refl
dry_answer-tables (accepted x, c) = refl

dry_answer-notices : (r : Inbound × Conn ItsmDb) → (dry_answer r).0.notices ≡ []
unfolding dry_answer
dry_answer-notices (refused code message, c) = refl
dry_answer-notices (accepted x, c) = refl

answer_resolved :
    (x : InboundResolved) (r : Result (Option Incident × Bool × Bool) × Conn ItsmDb)
    → (inbound_answer x r).0.code ≡ 200
    → (inbound_answer x r).0.resolved ≡ some x
unfolding inbound_answer
answer_resolved x (err e, c) h = absurd (omega arith)
answer_resolved x (ok (none, s, a), c) h = absurd (omega arith)
answer_resolved x (ok (some i, s, a), c) h = refl

dry_agrees :
    (r : Inbound × Conn ItsmDb)
    → (apply_resolved r).0.code ≡ 200
    → ((dry_answer r).0.code ≡ 200) × ((dry_answer r).0.resolved ≡ (apply_resolved r).0.resolved)
unfolding apply_resolved dry_answer
dry_agrees (refused code message, c) h = (h, refl)
dry_agrees (accepted x, c) h = (refl, sym (answer_resolved x _ h))

-- When the webhook answers 200 to a request, the dry run of the same request on the same tables
-- answers 200 too, with the same status, owner and mapping; it changes no table and sends no
-- notice.
pub itsm_inbound_dry_run-agrees :
    (os : Os) (sha256 : String → String) (r : InboundRequest) (c : Conn ItsmDb)
    → (itsm_inbound_webhook os sha256 r c).0.code ≡ 200
    → ((itsm_inbound_dry_run os sha256 r c).0.code ≡ 200)
      × ((itsm_inbound_dry_run os sha256 r c).0.resolved
          ≡ (itsm_inbound_webhook os sha256 r c).0.resolved)
      × ((itsm_inbound_dry_run os sha256 r c).1.db ≡ c.db)
      × ((itsm_inbound_dry_run os sha256 r c).0.notices ≡ [])
unfolding itsm_inbound_dry_run itsm_inbound_webhook
itsm_inbound_dry_run-agrees os sha256 r c h = elim (Bool-cases (str_eq r.method "POST")) [
  | inl post ↦
      let done = rw post at h in
      let (code, same) = dry_agrees (decode_and_resolve_itsm_inbound os sha256 r c) done in
      rw post (
        code,
        same,
        dry_answer-tables (decode_and_resolve_itsm_inbound os sha256 r c)
            ∙ decode-tables os sha256 r c,
        dry_answer-notices (decode_and_resolve_itsm_inbound os sha256 r c),
      )
  | inr other ↦ let done : ◌≡◌ {A = ℕ} 405 200 = rw other at h in absurd (omega arith)
]
