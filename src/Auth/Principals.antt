-- ===== src/Auth/Principals.antt =====
-- Principals of `materialize_principal` (auth/policies.py) against the rows that they are made of.
use Prim.Native.String.{String}
use text.Mathlib.Text.{◌==◌ as str_eq}
use text.Mathlib.TextEquality.{eq_iff}
use veloxrag.Prelude.{
  inl, inr, ℕ, ◌≡◌, ◌≢◌, ◌≤◌, refl, ap, subst, true, ◌&&◌, Option, none, some, List, [], ◌∷◌, any,
  Bool-cases, &&-true, leb, leb→le, eq_of_some, ok, eq_of_ok, err≢ok, >>=-eq-ok, guard-eq-ok,
}
use veloxrag.Auth.Policies.{
  Base64, ApiKey, Capability, ingest, retrieve, answer, manage, AgentPrincipal, AdminPrincipal,
  admin, agent, same_capability, capability_of, capabilities_of, both, present, limit_in, in_scope,
  all_distinct, admin_from_row, agent_from_row, materialize_principal, has_capability,
  is_canonical_public_id,
}

abbrev pub capability_name : Capability → String
capability_name ingest = "ingest"
capability_name retrieve = "retrieve"
capability_name answer = "answer"
capability_name manage = "manage"

none≢some_capability : (c : Capability) → ◌≢◌ {A = Option Capability} none (some c)
none≢some_capability c h = cc

capability_of-known :
    (v : String) (g c : Capability)
    → capability_of v ≡ some g
    → same_capability g c ≡ str_eq v (capability_name c)
unfolding capability_of
capability_of-known v g c h = elim (Bool-cases (str_eq v "ingest")) [
  | inl e ↦ named ingest (eq_of_some (rw e at h)) ((eq_iff v "ingest").0 e)
  | inr e ↦ elim (Bool-cases (str_eq v "retrieve")) [
    | inl f ↦ named retrieve (eq_of_some (rw (e, f) at h)) ((eq_iff v "retrieve").0 f)
    | inr f ↦ elim (Bool-cases (str_eq v "answer")) [
      | inl k ↦ named answer (eq_of_some (rw (e, f, k) at h)) ((eq_iff v "answer").0 k)
      | inr k ↦ elim (Bool-cases (str_eq v "manage")) [
        | inl l ↦ named manage (eq_of_some (rw (e, f, k, l) at h)) ((eq_iff v "manage").0 l)
        | inr l ↦ absurd (none≢some_capability g (rw (e, f, k, l) at h))
      ]
    ]
  ]
]
  where
    table :
        (d x : Capability) → same_capability d x ≡ str_eq (capability_name d) (capability_name x)
    table ingest ingest = refl
    table ingest retrieve = refl
    table ingest answer = refl
    table ingest manage = refl
    table retrieve ingest = refl
    table retrieve retrieve = refl
    table retrieve answer = refl
    table retrieve manage = refl
    table answer ingest = refl
    table answer retrieve = refl
    table answer answer = refl
    table answer manage = refl
    table manage ingest = refl
    table manage retrieve = refl
    table manage answer = refl
    table manage manage = refl

    named :
        (d : Capability)
        → d ≡ g
        → v ≡ capability_name d
        → same_capability g c ≡ str_eq v (capability_name c)
    named d same word = rw (← same, word, table d c)

both-some :
    (o : Option Capability) (p : Option (List Capability)) (cs : List Capability)
    → both o p ≡ some cs
    → (g : Capability) × (gs : List Capability) × (o ≡ some g) × (p ≡ some gs) × (g ∷ gs ≡ cs)
both-some none p cs h = cc
both-some (some g) none cs h = cc
both-some (some g) (some gs) cs h = (g, gs, refl, refl, eq_of_some h)

capabilities_of-known :
    (vs : List String) (cs : List Capability) (c : Capability)
    → capabilities_of vs ≡ some cs
    → any (λ g. same_capability g c) cs ≡ any (λ v. str_eq v (capability_name c)) vs
unfolding capabilities_of
capabilities_of-known [] cs c h = rw (← eq_of_some h)
capabilities_of-known (v ∷ vs) cs c h =
    let (g, gs, one, rest, whole) = both-some (capability_of v) (capabilities_of vs) cs h in
    rw (← whole, capability_of-known v g c one, capabilities_of-known vs gs c rest)

limit_in-bounds :
    (maximum : ℕ) (o : Option ℕ) (n : ℕ)
    → present (limit_in maximum o) ≡ ok n
    → (o ≡ some n) × (1 ≤ n) × (n ≤ maximum)
limit_in-bounds maximum none n h = absurd (err≢ok _ n h)
limit_in-bounds maximum (some k) n h = elim (Bool-cases (leb 1 k && leb k maximum)) [
  | inr e ↦ absurd (err≢ok _ n (rw e at h))
  | inl e ↦
      let same : k ≡ n = eq_of_ok (rw e at h) in
      let (low, high) = &&-true _ _ e in
      (
        ap some same,
        subst (λ x. 1 ≤ x) same (leb→le _ _ low),
        subst (λ x. x ≤ maximum) same (leb→le _ _ high),
      )
]

present-some {ℓ} : {A : Type ℓ} (o : Option A) (v : A) → present o ≡ ok v → o ≡ some v
present-some none v h = absurd (err≢ok _ v h)
present-some (some w) v h = ap some (eq_of_ok h)

eq_of_agent : {a b : AgentPrincipal} → agent a ≡ agent b → a ≡ b
eq_of_agent h = cc

admin≢agent : (a : AdminPrincipal) (b : AgentPrincipal) → admin a ≢ agent b
admin≢agent a b h = cc

module _ (b : Base64) (row : ApiKey) (knowledge_base_ids query_profile_ids : List ℕ)
    (default_query_profile_id : Option ℕ) where
  -- The row is an agent's, and the agent has its id and public id, its limits, in their bounds, its
  -- scopes, the default query profile, which is of its scope, and the capabilities that the row
  -- lists, each once.
  pub record IsAgentOf (a : AgentPrincipal) : Type 0 where
    pub key_type : row.key_type ≡ "agent"
    pub key_id : a.key_id ≡ row.id
    pub row_public_id : a.public_id ≡ row.public_id
    pub given_profile : a.default_query_profile_id ≡ default_query_profile_id
    pub requests : row.requests_per_minute ≡ some a.requests_per_minute
    pub requests_low : 1 ≤ a.requests_per_minute
    pub requests_high : a.requests_per_minute ≤ 10000
    pub concurrency : row.max_concurrency ≡ some a.max_concurrency
    pub concurrency_low : 1 ≤ a.max_concurrency
    pub concurrency_high : a.max_concurrency ≤ 1000
    pub raw_file_read : a.raw_file_read ≡ row.raw_file_read
    pub scope : a.knowledge_base_ids ≡ knowledge_base_ids
    pub profiles : a.query_profile_ids ≡ query_profile_ids
    pub default_profile : in_scope a.default_query_profile_id a.query_profile_ids ≡ true
    pub distinct : all_distinct row.capabilities ≡ true
    pub public_id : is_canonical_public_id b a.public_id ≡ true
    pub capabilities :
        (c : Capability)
        → has_capability a c ≡ any (λ v. str_eq v (capability_name c)) row.capabilities

  agent_from_row-IsAgentOf :
      (a : AgentPrincipal)
      → row.key_type ≡ "agent"
      → is_canonical_public_id b row.public_id ≡ true
      → agent_from_row b row knowledge_base_ids query_profile_ids default_query_profile_id
        ≡ ok (agent a)
      → IsAgentOf a
  agent_from_row-IsAgentOf a kind canonical h =
      let (_, listed, h1) = >>=-eq-ok _ _ h in
      let (granted, known, h2) = >>=-eq-ok _ _ h1 in
      let (requests, limit, h3) = >>=-eq-ok _ _ h2 in
      let (concurrency, limit', h4) = >>=-eq-ok _ _ h3 in
      let (_, scoped, h5) = >>=-eq-ok _ _ h4 in
      let (set, low, high) = limit_in-bounds 10000 row.requests_per_minute requests limit in
      let (set', low', high') = limit_in-bounds 1000 row.max_concurrency concurrency limit' in
      let (_, once) = &&-true _ _ (guard-eq-ok _ _ listed) in
      subst IsAgentOf (eq_of_agent (eq_of_ok h5)) (record {
        key_type = kind;
        key_id = refl;
        row_public_id = refl;
        given_profile = refl;
        requests = set;
        requests_low = low;
        requests_high = high;
        concurrency = set';
        concurrency_low = low';
        concurrency_high = high';
        raw_file_read = refl;
        scope = refl;
        profiles = refl;
        default_profile = guard-eq-ok _ _ scoped;
        distinct = once;
        public_id = canonical;
        capabilities =
            λ c. capabilities_of-known row.capabilities granted c (present-some _ granted known);
      })

  admin_from_row-refuses :
      (a : AgentPrincipal)
      → admin_from_row b row knowledge_base_ids query_profile_ids default_query_profile_id
        ≢ ok (agent a)
  admin_from_row-refuses a h = let (_, _, h1) = >>=-eq-ok _ _ h in admin≢agent _ a (eq_of_ok h1)

  -- A row of which `materialize_principal` makes an agent has the key type `agent`, and the agent has
  -- the row's id and its public id, which is canonical, the row's limits in their bounds, the scopes
  -- and the default query profile that are given, the profile in the scope, and exactly the
  -- capabilities that the row lists.
  pub materialize_principal-IsAgentOf :
      (a : AgentPrincipal)
      → materialize_principal b row knowledge_base_ids query_profile_ids default_query_profile_id
        ≡ ok (agent a)
      → IsAgentOf a
  unfolding materialize_principal
  materialize_principal-IsAgentOf a h =
      let (_, canonical, h1) = >>=-eq-ok _ _ h in
      elim (Bool-cases (str_eq row.key_type "admin")) [
        | inl e ↦ absurd (admin_from_row-refuses a (rw e at h1))
        | inr e ↦ elim (Bool-cases (str_eq row.key_type "agent")) [
          | inl f ↦
              agent_from_row-IsAgentOf a ((eq_iff row.key_type "agent").0 f)
                (guard-eq-ok _ _ canonical) (rw (e, f) at h1)
          | inr f ↦ absurd (err≢ok _ (agent a) (rw (e, f) at h1))
        ]
      ]
