-- ===== src/Delegation/Shape.antt =====
-- The stored sessions are well formed in every state that the mandate tools reach.
use razoragent_mesh.Prelude.{
  ℕ, ◌≡◌, sym, subst, inl, inr, [], ◌∷◌, Option, none, some, Bool, true, false, Bool-cases, leb,
  fine, arith, if_both,
}
use razoragent_mesh.Prelude.Text.{Text, text_eq, text_eq_iff}
use razoragent_mesh.Prelude.Dict.{lookup, insert, erase}
use razoragent_mesh.Sdk.Json.{object, canonicalize_json_string}
use razoragent_mesh.Sdk.Mandates.{
  UnsignedExecutionPayload, ExecutionMandate, execution_fields, signed_intent_fields,
  compute_mandate_hash,
}
use razoragent_mesh.Delegation.{
  KeyCustodyMode, agent_held, mesh_demo_custodial, DelegationSession, Sessions, Mesh, Environment,
  load_delegation_session, save_delegation_session, swept, live_at,
}

module _ (P : Text → DelegationSession → Type 0) where
  abbrev pub AllSessions : Sessions → Type 0
  AllSessions [] = Unit
  AllSessions ((id, s) ∷ rest) = P id s × AllSessions rest

  pub AllSessions-lookup :
      (id : Text) (sessions : Sessions) (s : DelegationSession)
      → AllSessions sessions
      → lookup id sessions ≡ some s
      → P id s
  unfolding lookup
  AllSessions-lookup id [] s h e = absurd (cc)
  AllSessions-lookup id ((j, v) ∷ rest) s (p, h) e = elim (Bool-cases (text_eq j id)) [
    | inl t ↦
        let f = rw t at e in
        let same : v ≡ s = cc in subst (λ x. P x s) ((text_eq_iff j id).0 t) (subst (P j) same p)
    | inr t ↦ let f = rw t at e in AllSessions-lookup id rest s h f
  ]

  pub AllSessions-insert :
      (id : Text) (s : DelegationSession) (sessions : Sessions)
      → AllSessions sessions
      → P id s
      → AllSessions (insert id s sessions)
  unfolding insert
  AllSessions-insert id s [] h p = (p, tt)
  AllSessions-insert id s ((j, v) ∷ rest) (q, h) p = elim (Bool-cases (text_eq j id)) [
    | inl t ↦ rw t (subst (λ x. P x s) (sym ((text_eq_iff j id).0 t)) p, h)
    | inr t ↦ rw t (q, AllSessions-insert id s rest h p)
  ]

  pub AllSessions-erase :
      (id : Text) (sessions : Sessions) → AllSessions sessions → AllSessions (erase id sessions)
  unfolding erase
  AllSessions-erase id [] h = tt
  AllSessions-erase id ((j, v) ∷ rest) (p, h) =
      if_both AllSessions (text_eq j id) _ _ (AllSessions-erase id rest h)
        (p, AllSessions-erase id rest h)

-- A settled session has its bundle and no key; one that is not settled has no bundle.
abbrev pub SettledShape : Bool → Option ExecutionMandate → Option Text → Type 0
SettledShape true (some m) none = Unit
SettledShape true none key = ⊥
SettledShape true (some m) (some key) = ⊥
SettledShape false none key = Unit
SettledShape false (some m) key = ⊥

abbrev pub CustodyShape : KeyCustodyMode → Option Text → Type 0
CustodyShape agent_held key = key ≡ none
CustodyShape mesh_demo_custodial key = Unit

-- An issued payload names the session's agent and intent, and its canonical text is kept.
abbrev pub PayloadShape : Environment → DelegationSession → Option UnsignedExecutionPayload → Type 0
PayloadShape env s none = s.execution_canonical_json ≡ none
PayloadShape env s (some p) =
    (p.buyer_agent_did ≡ s.buyer_agent_did)
    × (p.upi_circle_token ≡ s.intent_mandate.upi_circle_delegation_token)
    × (compute_mandate_hash env.sha256 (signed_intent_fields s.intent_mandate)
        ≡ fine p.intent_mandate_hash)
    × ((text : Text) × (s.execution_canonical_json ≡ some text)
        × (canonicalize_json_string (object (execution_fields p)) ≡ fine text))

-- A kept bundle is the session's payload, signed.
abbrev pub BundleShape : Option UnsignedExecutionPayload → Option ExecutionMandate → Type 0
BundleShape p none = Unit
BundleShape p (some m) = p ≡ some m.payload

pub record IsSound (env : Environment) (id : Text) (s : DelegationSession) : Type 0 where
  pub own_id : s.delegation_id ≡ id
  pub settled_shape : SettledShape s.settled s.signed_execution_mandate s.buyer_secret_key_hex
  pub custody_shape : CustodyShape s.key_custody s.buyer_secret_key_hex
  pub payload_shape : PayloadShape env s s.unsigned_execution_payload
  pub bundle_shape : BundleShape s.unsigned_execution_payload s.signed_execution_mandate

abbrev pub AreSound : Environment → Sessions → Type 0
AreSound env = AllSessions (IsSound env)

pub live_at-lookup :
    (now : ℕ) (o : Option DelegationSession) (s : DelegationSession)
    → live_at now o ≡ some s
    → o ≡ some s
unfolding live_at
live_at-lookup now none s h = absurd (cc)
live_at-lookup now (some found) s h = ground arith

swept-AreSound :
    (env : Environment) (id : Text) (now : ℕ) (o : Option DelegationSession) (sessions : Sessions)
    → AreSound env sessions
    → AreSound env (swept id now o sessions)
unfolding swept
swept-AreSound env id now none sessions h = h
swept-AreSound env id now (some found) sessions h =
    if_both (AreSound env) (leb found.expires_at_unix_seconds now) _ _
      (AllSessions-erase (IsSound env) id sessions h) h

-- A load finds a sound session and leaves sound ones.
pub load-AreSound :
    (env : Environment) (id : Text) (now : ℕ) (mesh : Mesh)
    → AreSound env mesh.sessions
    → AreSound env ((load_delegation_session id now mesh).1).sessions
unfolding load_delegation_session
load-AreSound env id now mesh h =
    swept-AreSound env id now (lookup id mesh.sessions) mesh.sessions h

pub load-IsSound :
    (env : Environment) (id : Text) (now : ℕ) (mesh : Mesh) (s : DelegationSession)
    → AreSound env mesh.sessions
    → (load_delegation_session id now mesh).0 ≡ some s
    → IsSound env id s
unfolding load_delegation_session
load-IsSound env id now mesh s h e =
    AllSessions-lookup (IsSound env) id mesh.sessions s h
      (live_at-lookup now (lookup id mesh.sessions) s e)

pub save-AreSound :
    (env : Environment) (s : DelegationSession) (mesh : Mesh)
    → AreSound env mesh.sessions
    → IsSound env s.delegation_id s
    → AreSound env (save_delegation_session s mesh).sessions
unfolding save_delegation_session
save-AreSound env s mesh h p = AllSessions-insert (IsSound env) s.delegation_id s mesh.sessions h p
