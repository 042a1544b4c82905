-- ===== src/Delegation/Settlement/Booked.antt =====
-- What a capture writes into the registries, the shelf and the sessions, map by map.
use razoragent_mesh.Prelude.{
  ℕ, ◌+◌, ◌≡◌, ◌⊎◌, inl, inr, refl, ap, ◌∙◌, [], ◌∷◌, Option, none, some, true, or_else,
  if◌then◌else◌,
}
use razoragent_mesh.Prelude.Text.{Text, text_eq}
use razoragent_mesh.Prelude.Dict.{lookup, lookup-insert, lookup-insert_self}
use razoragent_mesh.Inventory.Locker.{Shelf, consume_reservation}
use razoragent_mesh.Session.{
  SessionRegistry, find_prior_purchase, record_settled_purchase, record_session_spend,
}
use razoragent_mesh.Session.Memory.{find_prior_purchase-record_self}
use razoragent_mesh.Sdk.Mandates.{CartMandate, ExecutionMandate}
use razoragent_mesh.Delegation.{
  DelegationSession, Mesh, Environment, discard_session_buyer_key, save_delegation_session,
}
use razoragent_mesh.Delegation.Settlement.{
  cart_key, named_session, remember_purchase, record_spend, first_sku, consume_of,
  consume_settled_reservation,
}
use razoragent_mesh.Delegation.Settlement.Run.{Bundle, SettlementCall, after_capture}

abbrev pub spent_by : Text → SessionRegistry → ℕ
spent_by id s = or_else (lookup id s.session_spent_paise) 0

-- A purchase of the MCP session `id` is in the registry: the cart's total is spent, the ceilings are
-- as they were, and the payment, where it has an id, is found under the cart.
pub record IsAccounted (id : Text) (cart : CartMandate) (payment_id : Option Text)
    (before after : SessionRegistry) : Type 0 where
  pub spent : spent_by id after ≡ spent_by id before + cart.total_paise
  pub ceilings : after.session_ceiling_paise ≡ before.session_ceiling_paise
  pub remembered :
      (paid : Text)
      → payment_id ≡ some paid
      → find_prior_purchase id (cart_key cart) after ≡ some paid

-- The cart's reservation is retired; without a lock token or a first item's SKU nothing is.
abbrev pub IsRetired : CartMandate → Shelf → Shelf → Type 0
IsRetired cart before after =
    (after ≡ (consume_reservation cart.inventory_lock_token before).1)
    ⊎ (((cart.inventory_lock_token ≡ []) ⊎ (first_sku cart.items ≡ [])) × (after ≡ before))

-- The books of a capture: the registry of the call's MCP session, if it has one, the shelf, and the
-- delegation's session, which is settled with this mandate and without its key; all else is kept.
pub record IsBooked (mcp_session : Option Text) (session : DelegationSession)
    (signed : ExecutionMandate) (cart : CartMandate) (payment_id : Option Text)
    (before after : Mesh) : Type 0 where
  pub named :
      (id : Text)
      → mcp_session ≡ some id
      → IsAccounted id cart payment_id before.purchases after.purchases
  pub unnamed : mcp_session ≡ none → after.purchases ≡ before.purchases
  pub retired : IsRetired cart before.shelf after.shelf
  pub stored :
      (j : Text)
      → lookup j after.sessions ≡ (
          if text_eq session.delegation_id j
          then some (record session {
            buyer_secret_key_hex = none;
            signed_execution_mandate = some signed;
            settled = true;
          })
          else lookup j before.sessions)
  pub same_quotes : after.quotes ≡ before.quotes
  pub same_agreements : after.agreements ≡ before.agreements

accounted :
    (id : Text) (cart : CartMandate) (payment_id : Option Text) (s : SessionRegistry)
    → IsAccounted id cart payment_id s (
        record_spend
          (some id)
          cart.total_paise
          (remember_purchase (cart_key cart) payment_id (some id) s))
unfolding record_spend remember_purchase record_session_spend find_prior_purchase
    record_settled_purchase
accounted id cart none s = record {
  spent = ap (λ o. or_else o 0) (lookup-insert_self id _ s.session_spent_paise);
  ceilings = refl;
  remembered = λ paid e. absurd (cc);
}
accounted id cart (some payment) s = record {
  spent = ap (λ o. or_else o 0) (lookup-insert_self id _ s.session_spent_paise);
  ceilings = refl;
  remembered = λ paid e. find_prior_purchase-record_self id (cart_key cart) payment s ∙ e;
}

consume_of-cases :
    (token sku : Text) (shelf : Shelf)
    → (consume_of token sku shelf ≡ (consume_reservation token shelf).1)
      ⊎ (((token ≡ []) ⊎ (sku ≡ [])) × (consume_of token sku shelf ≡ shelf))
unfolding consume_of
consume_of-cases [] sku shelf = inr (inl refl, refl)
consume_of-cases (c ∷ token) [] shelf = inr (inr refl, refl)
consume_of-cases (c ∷ token) (d ∷ sku) shelf = inl refl

unnamed_purchases :
    (cart : CartMandate) (payment_id : Option Text) (s : SessionRegistry)
    → record_spend none cart.total_paise (remember_purchase (cart_key cart) payment_id none s) ≡ s
unfolding record_spend remember_purchase
unnamed_purchases cart none s = refl
unnamed_purchases cart (some payment) s = refl

module _ (env : Environment) (call : SettlementCall) where
  pub after_capture-IsBooked :
      (b : Bundle) (m : ExecutionMandate) (payment_id : Option Text) (mesh : Mesh)
      → IsBooked
          (named_session call.mcp_session_id)
          b.session
          m
          b.cart
          payment_id
          mesh
          (after_capture env call b m payment_id mesh)
  unfolding after_capture discard_session_buyer_key save_delegation_session
      consume_settled_reservation
  after_capture-IsBooked b m payment_id mesh = record {
    named = λ id e. rw e (accounted id b.cart payment_id mesh.purchases);
    unnamed = λ e. rw e (unnamed_purchases b.cart payment_id mesh.purchases);
    retired = consume_of-cases b.cart.inventory_lock_token (first_sku b.cart.items) mesh.shelf;
    stored = λ j. lookup-insert b.session.delegation_id j _ mesh.sessions;
    same_quotes = refl;
    same_agreements = refl;
  }
