-- ===== src/Builtin/Revoked.antt =====
-- What `/disconnect` leaves in the vault (src/core/builtin_commands.py).
use im_assistant.Prelude.{
  ◌≡◌, refl, sym, ap, ◌∙◌, Bool, none, some, Text, ok, find, non_empty_string, continue-eq-ok,
  continue-lift-ok, returned-eq, Option-cases, inl, inr,
}
use im_assistant.Instant.{Instant}
use im_assistant.TokenVault.{get_user_token}
use im_assistant.Prelude.Table.Reads.{find-delete}
use im_assistant.Store.Records.{Db}
use im_assistant.Store.Tokens.{is_token, get_token, delete_token}
use im_assistant.Command.Dispatch.{CommandContext}
use im_assistant.Builtin.{
  BuiltinCommand, BuiltinCommandServices, TokenVault, normalize_service, disconnect_handler,
  first_arg,
}
use im_assistant.Builtin.Texts.{disconnect_reply}

delete_token-gone :
    (principal service : Text) (removed : Bool) (db db' : Db)
    → delete_token principal service db ≡ (ok removed, db')
    → get_token principal service db' ≡ (ok none, db')
unfolding delete_token get_token
delete_token-gone principal service removed db db' h =
    let (p, ep, h1) = continue-lift-ok (non_empty_string principal) _ h in
    let (s, es, h2) = continue-lift-ok (non_empty_string service) _ h1 in
    let (_, ends) = returned-eq h2 in
    let gone =
      ap (λ d. find (is_token p s) d.tokens) (sym ends)
      ∙ find-delete (is_token p s) (is_token p s) db.tokens (λ r e. e) in
    rw (ep, es, gone) refl

-- What a `/disconnect` has done to the vault `v`.
pub record IsRevoked {H E : Type 0} (x : BuiltinCommandServices H E)
    (context : CommandContext BuiltinCommand E) (reply : Text) (db db' : Db) : Type 0 where
  pub vault : TokenVault
  pub configured : x.token_vault ≡ some vault
  pub arg : Text
  pub given : first_arg context.args ≡ ok arg
  pub service : Text
  pub normal : normalize_service arg ≡ ok service
  pub gone :
      (now : Instant)
      → get_user_token vault.cipher vault.skew now context.session.principal.id service db'
        ≡ (ok none, db')
  pub removed : Bool
  pub told : disconnect_reply removed service ≡ reply

module _ {H E : Type 0} (x : BuiltinCommandServices H E) where
  revoked :
      (context : CommandContext BuiltinCommand E) (reply : Text) (v : TokenVault) (db db' : Db)
      → x.token_vault ≡ some v
      → disconnect_handler x context db ≡ (ok reply, db')
      → IsRevoked x context reply db db'
  unfolding disconnect_handler get_user_token
  revoked context reply v db db' is_v h =
      let (arg, e1, h1) = continue-lift-ok (first_arg context.args) _ (rw is_v at h) in
      let (service, e2, h2) = continue-lift-ok (normalize_service arg) _ h1 in
      let (removed, mid, e3, h3) =
        continue-eq-ok (delete_token context.session.principal.id service db) _ h2 in
      let (same, ends) = returned-eq h3 in
      let gone =
        delete_token-gone context.session.principal.id service removed db db'
          (e3 ∙ ap (λ d. (ok removed, d)) ends) in
      record {
        vault = v;
        configured = is_v;
        arg = arg;
        given = e1;
        service = service;
        normal = e2;
        gone = λ now. rw gone refl;
        removed = removed;
        told = same;
      }

  -- When `/disconnect` returns, a vault is configured, and it has no token of the Session's
  -- principal for the service that was named, in the normal form of its name.
  pub disconnect_handler-IsRevoked :
      (context : CommandContext BuiltinCommand E) (reply : Text) (db db' : Db)
      → disconnect_handler x context db ≡ (ok reply, db')
      → IsRevoked x context reply db db'
  unfolding disconnect_handler
  disconnect_handler-IsRevoked context reply db db' h = elim (Option-cases x.token_vault) [
    | inl e ↦ absurd (cc (rw e at h))
    | inr (v, e) ↦ revoked context reply v db db' e h
  ]
