-- ===== src/Config/Views/Tests.antt =====
-- Views over toy digests, two requests that get one id, and the typed accessors.
use go_framework.Base.{ℕ, Bytes, same_bytes, [], ◌∷◌, Option, none, some, ◌≡◌, refl}
use go_framework.Http.Components.{split_from}
use go_framework.Config.Views.{
  ViewState, with_namespace, with_password, view_for, view_id, join_ns, write_passwords,
  cached_view, new_config_view, digests,
}
use go_framework.Config.Values.{string, number_list, string_list, trimmed_parts, parsed_all}

abbrev same : Bytes → Bytes
same b = b

abbrev root : ViewState
root = record {
  view = record { prefix = []; ns = []; password = [] };
  view_cache = [];
  appended = [];
}

-- The view with a password is given for the namespace that is spelled like its digest.
password_for_namespace :
    (with_namespace same same same
      ((7 ∷ []) ∷ [])
      (with_password same same same ((7 ∷ []) ∷ []) root).0).1
    ≡ record { prefix = []; ns = []; password = (7 ∷ []) ∷ [] }
unfolding with_namespace with_password view_for view_id join_ns write_passwords cached_view
    new_config_view digests same_bytes
password_for_namespace = refl

abbrev digit : Bytes → Option ℕ
digit (d ∷ []) = some d
digit _ = none

-- "7,,12,8" with digits as numbers.
listed :
    number_list (λ k. some (55 ∷ 44 ∷ 44 ∷ 49 ∷ 50 ∷ 44 ∷ 56 ∷ [])) digit same [] ≡ 55 ∷ 56 ∷ []
unfolding number_list parsed_all string_list trimmed_parts string split_from
listed = refl
