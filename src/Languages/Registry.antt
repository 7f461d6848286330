-- ===== src/Languages/Registry.antt =====
-- Lookup after registration (backend/judge/app/languages/registry.py).
use yandex_codeforces_analyz.Prelude.{
  String, ◌≡◌, refl, inl, inr, false, List, [], ◌∷◌, ◌++◌, arith, if◌then◌else◌, Bool-cases, any_of,
  str_eq, str_eq_iff,
}
use yandex_codeforces_analyz.Sandbox.{ok}
use yandex_codeforces_analyz.Languages.{Language, get_language, register}

module _ {F : Type 0} where
  get_language-append :
      (registry : List (Language F)) (l : Language F) (id : String)
      → any_of (λ r. str_eq r.id l.id) registry ≡ false
      → get_language (registry ++ (l ∷ [])) id
        ≡ (if str_eq l.id id then ok l else get_language registry id)
  unfolding get_language
  get_language-append [] l id h = refl
  get_language-append (r ∷ registry) l id h = ground (
    arith,
    get_language-append registry l id,
    str_eq_iff r.id l.id,
    str_eq_iff r.id id,
    str_eq_iff l.id id,
  )

  -- After a registration that is accepted, the new language is found under its id, and every other
  -- id is looked up as before.
  pub get_language-register :
      (registry new_registry : List (Language F)) (l : Language F) (id : String)
      → register registry l ≡ ok new_registry
      → get_language new_registry id ≡ (if str_eq l.id id then ok l else get_language registry id)
  unfolding register
  get_language-register registry new_registry l id h =
      elim (Bool-cases (any_of (λ r. str_eq r.id l.id) registry)) [
        | inl t ↦ ground arith
        | inr f ↦ ground (arith, get_language-append registry l id f)
      ]
