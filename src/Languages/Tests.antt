-- ===== src/Languages/Tests.antt =====
-- Runs of the registry and of the compilation.
use yandex_codeforces_analyz.Prelude.{
  ◌≡◌, refl, if◌then◌else◌, str_eq, split_once, after_prefix, [], ◌∷◌,
}
use yandex_codeforces_analyz.Samples.{whole}
use yandex_codeforces_analyz.Sandbox.{ok, err, value_error}
use yandex_codeforces_analyz.Languages.{
  cpp, python, register, get_language, run_command, source_file, render,
}
use yandex_codeforces_analyz.Languages.Registry.{get_language-register}

python_command : run_command (python whole) "main.py" "main" ≡ "/usr/bin/python3" ∷ "main.py" ∷ []
unfolding run_command render python after_prefix
python_command = refl

checker_source_named : source_file (cpp whole) "checker" ≡ "checker_main.cpp"
unfolding source_file cpp split_once
checker_source_named = refl

registered_twice :
    register (cpp whole ∷ []) (cpp whole) ≡ err (value_error "language already registered: cpp")
unfolding register cpp
registered_twice = refl

both_registered : register (cpp whole ∷ []) (python whole) ≡ ok (cpp whole ∷ python whole ∷ [])
unfolding register cpp python
both_registered = refl

get_language-register_example : get_language (cpp whole ∷ python whole ∷ []) "python" ≡ (
    if str_eq (python whole).id "python"
    then ok (python whole)
    else get_language (cpp whole ∷ []) "python")
get_language-register_example =
    get_language-register (cpp whole ∷ []) (cpp whole ∷ python whole ∷ []) (python whole) "python"
      both_registered
