-- ===== src/Auth/Gates.antt =====
-- Whom the gates of auth/policies.py let through, and what a refusal tells.
use veloxrag.Prelude.{
  ℕ, ◌≡◌, ◌↔◌, refl, ap, subst, ◌∙◌, Bool, true, false, ◌&&◌, any, ok, err, ◌>>=◌, eq_of_ok, err≢ok,
  >>=-eq-ok, guard-eq-ok,
}
use veloxrag.Auth.Policies.{
  Capability, Principal, AgentPrincipal, AdminPrincipal, admin, agent,
  insufficient_capability_error, resource_not_found_error, member, has_capability,
  document_read_capabilities, require_admin, require_agent, require_capability,
  require_knowledge_base_access, require_document_read, require_raw_file_read,
}

-- What a reader of a document's own text must have.
pub record MayReadRaw (p : Principal) (id : ℕ) (parent_exists : Bool) (a : AgentPrincipal)
    : Type 0 where
  pub is_agent : p ≡ agent a
  pub exists : parent_exists ≡ true
  pub in_knowledge_base : member id a.knowledge_base_ids ≡ true
  pub reads_documents : any (has_capability a) document_read_capabilities ≡ true
  pub reads_raw : a.raw_file_read ≡ true

-- `require_raw_file_read` lets an agent through if and only if the knowledge base exists and is in
-- the agent's scope, the agent has one of the capabilities `manage`, `ingest` and `retrieve`, and
-- its key has the flag for raw files.
pub require_raw_file_read_iff :
    (p : Principal) (id : ℕ) (parent_exists : Bool) (a : AgentPrincipal)
    → (require_raw_file_read p id parent_exists ≡ ok a) ↔ MayReadRaw p id parent_exists a
unfolding require_raw_file_read require_document_read require_knowledge_base_access require_agent
    ◌>>=◌
require_raw_file_read_iff p id parent_exists a = (there p, back)
  where
    there :
        (q : Principal)
        → require_raw_file_read q id parent_exists ≡ ok a
        → MayReadRaw q id parent_exists a
    there (admin x) h = absurd (err≢ok _ a h)
    there (agent x) h =
        let (y, document, h1) = >>=-eq-ok (require_document_read (agent x) id parent_exists) _ h in
        let (_, raw, h2) = >>=-eq-ok _ _ h1 in
        let (_, access, h3) =
          >>=-eq-ok (require_knowledge_base_access (agent x) id parent_exists) _ document in
        let (_, reads, h4) = >>=-eq-ok _ _ h3 in
        let (_, exists, h5) = >>=-eq-ok _ _ access in
        let (_, scope, _) = >>=-eq-ok _ _ h5 in
        let same : x ≡ y = eq_of_ok h4 in
        subst (MayReadRaw (agent x) id parent_exists) (same ∙ eq_of_ok h2) (record {
          is_agent = refl;
          exists = guard-eq-ok _ _ exists;
          in_knowledge_base = guard-eq-ok _ _ scope;
          reads_documents = guard-eq-ok _ _ reads;
          reads_raw = ap (λ (z : AgentPrincipal). z.raw_file_read) same ∙ guard-eq-ok _ _ raw;
        })

    back : MayReadRaw p id parent_exists a → require_raw_file_read p id parent_exists ≡ ok a
    back m = rw (m.is_agent, m.exists, m.in_knowledge_base, m.reads_documents, m.reads_raw)

-- Of a knowledge base that does not exist or is out of its key's scope, no agent learns which: all
-- such requests for a document or its text are refused alike, as a resource that is not found,
-- whatever the keys may do otherwise.
pub require_raw_file_read-hides :
    (a : AgentPrincipal) (id : ℕ) (parent_exists : Bool)
    → (parent_exists && member id a.knowledge_base_ids) ≡ false
    → (require_knowledge_base_access (agent a) id parent_exists ≡ err resource_not_found_error)
      × (require_document_read (agent a) id parent_exists ≡ err resource_not_found_error)
      × (require_raw_file_read (agent a) id parent_exists ≡ err resource_not_found_error)
unfolding require_raw_file_read require_document_read require_knowledge_base_access require_agent
    ◌>>=◌
require_raw_file_read-hides a id false h = (refl, refl, refl)
require_raw_file_read-hides a id true h = (rw h, rw h, rw h)

-- No principal is let through both by the gate of administrators and by one of agents: who passes
-- `require_admin` is refused by every other gate, and no gate but it lets an administrator through.
pub require_admin-excludes :
    (p : Principal) (x : AdminPrincipal) (c : Capability) (id : ℕ) (exists : Bool)
    → require_admin p ≡ ok x
    → (require_capability p c ≡ err insufficient_capability_error)
      × (require_knowledge_base_access p id exists ≡ err insufficient_capability_error)
      × (require_document_read p id exists ≡ err insufficient_capability_error)
      × (require_raw_file_read p id exists ≡ err insufficient_capability_error)
unfolding require_admin require_capability require_raw_file_read require_document_read
    require_knowledge_base_access require_agent ◌>>=◌
require_admin-excludes (admin a) x c id exists h = (refl, refl, refl, refl)
require_admin-excludes (agent a) x c id exists h = absurd (err≢ok _ x h)
