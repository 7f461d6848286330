-- ===== src/Archive/Tests.antt =====
-- A user with one job, and a table that is too full.
use yandex_codeforces_analyz.Prelude.{
  ℕ, zero, suc, ◌≤◌, String, ◌≡◌, none, some, List, [], ◌∷◌, ◌==◌, if◌then◌else◌, length, show,
}
use yandex_codeforces_analyz.Archive.{ImportJob, new_job, create_job, get_job}
use yandex_codeforces_analyz.Archive.Bounds.{length-create_job, get_job-create_job}

abbrev one_job : List (String × ImportJob)
one_job = ("j1", new_job "j1" 7 "contest.zip" 100) ∷ []

abbrev many_jobs : ℕ → List (String × ImportJob)
many_jobs zero = []
many_jobs (suc n) = (show n, new_job (show n) 7 "contest.zip" n) ∷ many_jobs n

length-create_job_example : length (create_job "j2" 200 7 "round.zip" (many_jobs 33)) ≤ 30
length-create_job_example = length-create_job "j2" 200 7 "round.zip" (many_jobs 33)

get_job-create_job_example :
    get_job "j2" 8 (create_job "j2" 200 7 "round.zip" one_job)
    ≡ (if 7 == 8 then some (new_job "j2" 7 "round.zip" 200) else none)
get_job-create_job_example = get_job-create_job "j2" 200 7 8 "round.zip" one_job
