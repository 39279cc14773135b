-- ===== src/Store/Bindings.antt =====
-- The table `identity_bindings`.
use im_assistant.Prelude.{
  Bool, ◌&&◌, Option, some, List, [], ◌∷◌, ◌++◌, Text, ◌==◌, Action, pure, lift, gets, modify,
  ◌>>=◌, ◌>>◌, non_empty_string, optional_string, find, delete, update, count, exists, or_default,
  ltb, if◌then◌else◌,
}
use im_assistant.Instant.{Instant}
use im_assistant.Store.Records.{BindingRecord, Db}
use im_assistant.Store.Sessions.{expect}

abbrev pub is_binding : Text → Text → BindingRecord → Bool
is_binding provider user r = r.provider == provider && r.external_user_id == user

abbrev overwrite_binding : BindingRecord → BindingRecord → BindingRecord
overwrite_binding new r = record new {
  provider = r.provider;
  external_user_id = r.external_user_id;
  created_at = r.created_at;
}

unfoldable pub put_binding : BindingRecord → List BindingRecord → List BindingRecord
put_binding new rows =
    if exists (is_binding new.provider new.external_user_id) rows
    then update (is_binding new.provider new.external_user_id) (overwrite_binding new) rows
    else rows ++ new ∷ []

unfoldable pub get_identity_binding : Text → Text → Action Db (Option BindingRecord)
get_identity_binding provider external_user_id = do
  p ← lift (non_empty_string provider)
  u ← lift (non_empty_string external_user_id)
  gets λ db. find (is_binding p u) db.bindings

unfoldable pub upsert_identity_binding : Instant → BindingRecord → Action Db BindingRecord
upsert_identity_binding now r = do
  p ← lift (non_empty_string r.provider)
  u ← lift (non_empty_string r.external_user_id)
  principal_id ← lift (non_empty_string r.principal_id)
  let row : BindingRecord = record r {
    provider = p;
    external_user_id = u;
    principal_id = principal_id;
    union_id = optional_string r.union_id;
    staff_id = optional_string r.staff_id;
    display_name = optional_string r.display_name;
    created_at = some (or_default r.created_at now);
    updated_at = some now;
  }
  modify λ db. record db { bindings = put_binding row db.bindings }
  stored ← get_identity_binding r.provider r.external_user_id
  expect stored

unfoldable pub delete_identity_binding : Text → Text → Action Db Bool
delete_identity_binding provider external_user_id = do
  p ← lift (non_empty_string provider)
  u ← lift (non_empty_string external_user_id)
  n ← gets λ db. count (is_binding p u) db.bindings
  modify λ db. record db { bindings = delete (is_binding p u) db.bindings }
  pure (ltb 0 n)
